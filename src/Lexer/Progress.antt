-- ===== src/Lexer/Progress.antt =====
-- How far the lexer gets: lexer_next_token of src/lexer/lexer.c stays within the source, advances
-- with every token, and its lexemes are the bytes of the source at the token's position.
use cleric.Common.{
  ℕ, suc, ◌+◌, ◌≤◌, ◌<◌, ◌≡◌, refl, ap, sym, ◌∙◌, Bool, true, false, ◌⊎◌, inl, inr, Option, none,
  some, [], ◌∷◌, arith, Bool-cases, Option-cases, length, take, drop, length-drop, drop-drop,
  length-take,
}
use cleric.Common.Text.{Text}
use cleric.Token.{TokenType}
use cleric.Lexer.{
  Lexer, Scan, plain, is_space, is_digit, is_word_start, is_word, count_while, is_keyword,
  skip_whitespace, scan_word, bad_suffix, scan_number, next_is, symbol_type, scan_symbol, scan,
  lexer_next_token,
}

abbrev pub is_eof : TokenType → Bool
is_eof TokenType.eof = true
is_eof _ = false

abbrev lexeme_of : Option Text → Text
lexeme_of none = []
lexeme_of (some w) = w

-- A scan that takes a token out of a text: it takes a byte at least, no more than there are, and
-- its lexeme stands at its offset, before the end of what it takes.
record IsFound (cs : Text) (s : Scan) : Type 0 where
  real : is_eof s.type ≡ false
  within : s.used ≤ length cs
  before : s.offset < s.used
  slice :
      (s.lexeme ≡ none)
      ⊎ ((k : ℕ) × (s.used ≡ s.offset + k) × (s.lexeme ≡ some (take k (drop s.offset cs))))

count_while-within : (p : ℕ → Bool) (cs : Text) → count_while p cs ≤ length cs
unfolding count_while
count_while-within p [] = omega arith
count_while-within p (c ∷ cs) = elim (Bool-cases (p c)) [
  | inl e ↦ rw e (omega (arith, count_while-within p cs))
  | inr e ↦ rw e (omega arith)
]

is_keyword-real : (w : Text) (t : TokenType) → is_keyword w ≡ some t → is_eof t ≡ false
unfolding is_keyword
is_keyword-real w t h = ground arith

scan_word-IsFound : (c : ℕ) (cs : Text) → IsFound (c ∷ cs) (scan_word c cs)
unfolding scan_word
scan_word-IsFound c cs =
    let n = count_while is_word cs in
    let b = count_while-within is_word cs in
    elim (Option-cases (is_keyword (take (suc n) (c ∷ cs)))) [
      | inl e ↦
          rw (e, scan_word)
            (record {
              real = refl;
              within = omega arith;
              before = omega arith;
              slice = inr (suc n, omega arith, refl);
            })
      | inr (t, e) ↦
          rw (e, scan_word)
            (record {
              real = is_keyword-real _ t e;
              within = omega arith;
              before = omega arith;
              slice = inl refl;
            })
    ]

bad_suffix-some : (cs : Text) (c : ℕ) → bad_suffix cs ≡ some c → (rest : Text) × (cs ≡ c ∷ rest)
unfolding bad_suffix
bad_suffix-some [] c h = cc
bad_suffix-some (d ∷ ds) c h = (ds, ground arith)

scan_number-IsFound : (c : ℕ) (cs : Text) → IsFound (c ∷ cs) (scan_number c cs)
unfolding scan_number
scan_number-IsFound c cs =
    let n = count_while is_digit cs in
    let b = count_while-within is_digit cs in
    elim (Option-cases (bad_suffix (drop (suc n) (c ∷ cs)))) [
      | inl e ↦
          rw (e, scan_number)
            (record {
              real = refl;
              within = omega arith;
              before = omega arith;
              slice = inr (suc n, omega arith, refl);
            })
      | inr (d, e) ↦
          let (rest, split) = bad_suffix-some _ d e in
          let room : length (drop n cs) ≡ suc (length rest) = ap length split in
          rw (e, scan_number)
            (record {
              real = refl;
              within = omega (arith, length-drop n cs);
              before = omega arith;
              slice = inr (1, omega arith, rw split);
            })
    ]

next_is-room : (c : ℕ) (cs : Text) → next_is c cs ≡ true → 0 < length cs
unfolding next_is
next_is-room c [] h = cc
next_is-room c (d ∷ ds) h = omega arith

symbol_type-IsFound :
    (c : ℕ) (cs : Text) (t : TokenType) (used : ℕ)
    → symbol_type c cs ≡ some (t, used)
    → (is_eof t ≡ false) × (used ≤ length (c ∷ cs)) × (0 < used)
unfolding symbol_type
symbol_type-IsFound c cs t used h =
    ground (
      arith,
      next_is-room b'-' cs,
      next_is-room b'=' cs,
      next_is-room b'&' cs,
      next_is-room b'|' cs,
    )

scan_symbol-IsFound : (c : ℕ) (cs : Text) → IsFound (c ∷ cs) (scan_symbol c cs)
unfolding scan_symbol
scan_symbol-IsFound c cs = elim (Option-cases (symbol_type c cs)) [
  | inl e ↦
      rw (e, scan_symbol)
        (record {
          real = refl;
          within = omega arith;
          before = omega arith;
          slice = inr (1, omega arith, refl);
        })
  | inr ((t, used), e) ↦
      rw (e, scan_symbol)
        (let (real, within, some_used) = symbol_type-IsFound c cs t used e in
          record { real = real; within = within; before = some_used; slice = inl refl })
]

scan-cases :
    (cs : Text) → ((length cs ≡ 0) × (scan cs ≡ plain TokenType.eof 0)) ⊎ IsFound cs (scan cs)
unfolding scan
scan-cases [] = inl (refl, refl)
scan-cases (c ∷ cs) = inr (elim (Bool-cases (is_word_start c)) [
  | inl e ↦ rw e (scan_word-IsFound c cs)
  | inr e ↦ rw e (elim (Bool-cases (is_digit c)) [
    | inl d ↦ rw d (scan_number-IsFound c cs)
    | inr d ↦ rw d (scan_symbol-IsFound c cs)
  ])
])

module _ (l : Lexer) (h : l.pos ≤ length l.src) where
  abbrev start : ℕ
  unfolding skip_whitespace
  start = (skip_whitespace l).pos

  start-within : (l.pos ≤ start) × (start ≤ length l.src)
  unfolding skip_whitespace
  start-within =
      let b = count_while-within is_space (drop l.pos l.src) in
      (omega arith, omega (arith, length-drop l.pos l.src))

  -- lexer_next_token keeps the source and stays within it. At the end it answers an eof token at the
  -- length of the source; any other token stands at or behind the old position and before the new
  -- one, so that the position strictly grows.
  pub next_token-advances :
      let (t, l') = lexer_next_token l in
      (l'.src ≡ l.src)
      × (l'.pos ≤ length l.src)
      × (((is_eof t.type ≡ true) × (t.position ≡ length l.src) × (l'.pos ≡ length l.src))
          ⊎ ((is_eof t.type ≡ false) × (l.pos ≤ t.position) × (t.position < l'.pos)))
  unfolding lexer_next_token skip_whitespace
  next_token-advances =
      let b = start-within in
      let room = length-drop start l.src in
      elim (scan-cases (drop start l.src)) [
        | inl (n, e) ↦ rw e (refl, omega arith, inl (refl, omega arith, omega arith))
        | inr f ↦
            let within = f.within in
            let before = f.before in (refl, omega arith, inr (f.real, omega arith, omega arith))
      ]

  -- A lexeme is the bytes of the source from the token's position up to the lexer's new position.
  pub next_token-lexeme :
      (w : Text)
      → (lexer_next_token l).0.lexeme ≡ some w
      → let (t, l') = lexer_next_token l in
        (t.position + length w ≡ l'.pos) × (take (length w) (drop t.position l.src) ≡ w)
  unfolding lexer_next_token skip_whitespace
  next_token-lexeme w e =
      let b = start-within in
      let room = length-drop start l.src in
      elim (scan-cases (drop start l.src)) [
        | inl (n, f) ↦ cc (rw f at e)
        | inr f ↦ elim f.slice [
          | inl n ↦ cc
          | inr (k, used, found) ↦
              let o = (scan (drop start l.src)).offset in
              let within = f.within in
              let same : w ≡ take k (drop o (drop start l.src)) = cc in
              let len : length w ≡ k =
                ap length same
                ∙ length-take k _ (omega (arith, length-drop o (drop start l.src))) in
              (omega arith, rw len (ap (take k) (sym (drop-drop start o l.src)) ∙ sym same))
        ]
      ]
