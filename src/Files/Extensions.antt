-- ===== src/Files/Extensions.antt =====
-- Replacing and testing extensions in src/files/files.c.
use mathlib.Core.Logic.{◌↔◌}
use mathlib.Core.Option
use cleric.Common.{
  ℕ, zero, suc, ◌+◌, ◌-◌, ◌≤◌, ◌<◌, ◌≡◌, refl, ◌∙◌, sym, ap, Bool, true, false, none, some, [], ◌∷◌,
  ◌++◌, ltb, ◌==◌, if◌then◌else◌, length, length-append, take, drop, length-take, All, arith,
  Bool-cases, Option-cases, inl, inr,
}
use cleric.Common.Text.{Text, text_eq, text_eq_refl, eq_of_text_eq}
use cleric.Files.{last_index, base_length, filename_replace_ext, filename_has_ext}

abbrev pub IsFreeOf : ℕ → Text → Type 0
IsFreeOf c = All (λ x. (x == c) ≡ false)

free-last_index : (c : ℕ) (t : Text) → IsFreeOf c t → last_index c t ≡ none
unfolding last_index
free-last_index c [] h = refl
free-last_index c (x ∷ t) (h, hs) = rw (free-last_index c t hs, h) refl

dot-last_index :
    (c : ℕ) (base ext : Text) → IsFreeOf c ext → last_index c (base ++ c ∷ ext) ≡ some (length base)
unfolding last_index
dot-last_index c [] ext h = rw (free-last_index c ext h) (ground arith)
dot-last_index c (x ∷ base) ext h = rw (dot-last_index c base ext h) refl

take-length-append : (a b : Text) → take (length a) (a ++ b) ≡ a
take-length-append [] b = refl
take-length-append (x ∷ a) b = ap (λ t. x ∷ t) (take-length-append a b)

drop-length-append : (a b : Text) → drop (length a) (a ++ b) ≡ b
drop-length-append [] b = refl
drop-length-append (x ∷ a) b = drop-length-append a b

take-drop : (n : ℕ) (t : Text) → take n t ++ drop n t ≡ t
take-drop zero t = refl
take-drop (suc n) [] = refl
take-drop (suc n) (x ∷ t) = ap (λ t. x ∷ t) (take-drop n t)

-- filename_replace_ext puts the new extension in the place of everything from the last dot on, where
-- the result and its NUL fit the buffer, and gives no name where they do not.
pub filename_replace_ext-base :
    (base ext new_ext : Text) (size : ℕ)
    → IsFreeOf b'.' ext
    → filename_replace_ext (base ++ b'.' ∷ ext) new_ext size
      ≡ (if ltb size (length base + length new_ext + 1) then none else some (base ++ new_ext))
unfolding filename_replace_ext
filename_replace_ext-base base ext new_ext size h =
    rw (dot-last_index b'.' base ext h, take-length-append base (b'.' ∷ ext)) refl

accepted :
    (filename ext : Text)
    → filename_has_ext filename ext ≡ true
    → (0 < length ext)
      × (length ext < length filename)
      × (text_eq (drop (length filename - length ext) filename) ext ≡ true)
unfolding filename_has_ext
accepted filename ext h = (ground arith, ground arith, ground arith)

pub suffix-accepted :
    (base ext : Text) → 0 < length base → 0 < length ext → filename_has_ext (base ++ ext) ext ≡ true
unfolding filename_has_ext
suffix-accepted base ext nb ne =
    let e : length (base ++ ext) - length ext ≡ length base =
      omega (arith, length-append base ext) in
    rw (e, drop-length-append base ext) (ground (arith, length-append base ext, text_eq_refl ext))

-- filename_has_ext accepts exactly the names that consist of something and the extension, neither
-- of them empty.
pub filename_has_ext_iff :
    (filename ext : Text)
    → (filename_has_ext filename ext ≡ true)
      ↔ ((base : Text) × (0 < length base) × (0 < length ext) × (filename ≡ base ++ ext))
filename_has_ext_iff filename ext = (
  λ h.
      let n = length filename - length ext in
      let (some_ext, longer, same) = accepted filename ext h in
      (
        take n filename,
        omega (arith, length-take n filename),
        some_ext,
        sym (take-drop n filename)
            ∙ ap (λ t. take n filename ++ t) (eq_of_text_eq (drop n filename) ext same),
      ),
  λ (base, nb, ne, e). rw e (suffix-accepted base ext nb ne),
)

last_index-bound : (c : ℕ) (t : Text) → base_length t (last_index c t) ≤ length t
unfolding last_index
last_index-bound c [] = omega arith
last_index-bound c (x ∷ t) =
    let le = last_index-bound c t in
    elim (Option-cases (last_index c t)) [
      | inl e ↦ elim (Bool-cases (x == c)) [
        | inl f ↦ rw (e, f) (omega arith)
        | inr f ↦ rw (e, f) (omega arith)
      ]
      | inr (i, e) ↦ let small : i ≤ length t = rw e at le in rw e (omega arith)
    ]

unless_some :
    (b : Bool) (t out : Text) → (if b then none else some t) ≡ some out → (b ≡ false) × (t ≡ out)
unless_some true t out e = absurd (cc)
unless_some false t out e = (refl, ap (λ o. Option.get_or o t) e)

-- Where a name has something before its last dot, or is not empty and has no dot, what
-- filename_replace_ext makes of it with an extension that is not empty has that extension.
pub filename_replace_ext-has_ext :
    (input new_ext out : Text) (size : ℕ)
    → 0 < base_length input (last_index b'.' input)
    → 0 < length new_ext
    → filename_replace_ext input new_ext size ≡ some out
    → filename_has_ext out new_ext ≡ true
unfolding filename_replace_ext
filename_replace_ext-has_ext input new_ext out size nb ne e =
    let n = base_length input (last_index b'.' input) in
    let (fits, same) = unless_some _ _ out e in
    let size = length-take n input (last_index-bound b'.' input) in
    rw (sym same) (suffix-accepted (take n input) new_ext (omega (arith, size)) ne)
