-- ===== src/Lex/Keywords.antt =====
-- lex_token on names, against the list of the keywords.
use ymd.Common.{
  ℕ, ◌+◌, ◌≡◌, ◌∙◌, refl, sym, ap, subst, arith, ◌⊎◌, ◌==◌, if◌then◌else◌, Bool-cases, Bool, true,
  false, inl, inr, List, [], ◌∷◌, ◌||◌,
}
use ymd.Lex.Chars.{
  Token, tok, codes, symbol_token, tok_literal, equal, find_literal, lex_token, is_alpha,
}

-- The keywords of the language with their codes.
abbrev pub keywords : List (List ℕ × ℕ)
keywords =
    (codes "nil", 128)
    ∷ (codes "true", 129)
    ∷ (codes "false", 130)
    ∷ (codes "var", 145)
    ∷ (codes "func", 146)
    ∷ (codes "and", 147)
    ∷ (codes "or", 148)
    ∷ (codes "not", 149)
    ∷ (codes "if", 150)
    ∷ (codes "else", 151)
    ∷ (codes "elif", 152)
    ∷ (codes "with", 153)
    ∷ (codes "for", 154)
    ∷ (codes "return", 155)
    ∷ (codes "break", 156)
    ∷ (codes "continue", 157)
    ∷ (codes "typeof", 158)
    ∷ (codes "in", 159)
    ∷ []

-- The word stands in the list with the code.
abbrev pub Has : List ℕ → ℕ → List (List ℕ × ℕ) → Type 0
Has w n [] = ⊥
Has w n ((z, k) ∷ rest) = ((w ≡ z) × (n ≡ k)) ⊎ Has w n rest

-- The token of a name: the keyword that is spelled so, or a symbol where no keyword is.
pub data Names (w : List ℕ) : Token → Type 0 where
  keyword : (n : ℕ) → Has w n keywords → Names w (tok n)
  symbol : ((n : ℕ) → Has w n keywords → ⊥) → Names w symbol_token

-- The first character is one that a name begins with.
abbrev pub starts : List ℕ → Bool
starts [] = false
starts (c ∷ _) = is_alpha c || c == b'_'

-- The entries of a table that a name can be, with their codes.
abbrev words_of : ℕ → List (List ℕ) → List (List ℕ × ℕ)
words_of i [] = []
words_of i (z ∷ rest) =
    let later = words_of (i + 1) rest in if starts z then (z, i) ∷ later else later

words_of-keywords : words_of 128 tok_literal ≡ keywords
unfolding tok_literal is_alpha
words_of-keywords = refl

equal→≡ : (xs ys : List ℕ) → equal xs ys ≡ true → xs ≡ ys
unfolding equal
equal→≡ [] [] e = refl
equal→≡ [] (y ∷ ys) e = cc e
equal→≡ (x ∷ xs) [] e = cc e
equal→≡ (x ∷ xs) (y ∷ ys) e = ground (arith, equal→≡ xs ys)

equal_refl : (xs : List ℕ) → equal xs xs ≡ true
unfolding equal
equal_refl [] = refl
equal_refl (x ∷ xs) = ground (arith, equal_refl xs)

find_literal_lem :
    (table : List (List ℕ)) (i : ℕ) (w : List ℕ)
    → starts w ≡ true
    → ((n : ℕ) × (find_literal table i w ≡ tok n) × Has w n (words_of i table))
      ⊎ ((find_literal table i w ≡ symbol_token) × ((n : ℕ) → Has w n (words_of i table) → ⊥))
unfolding find_literal
find_literal_lem [] i w s = inr (refl, λ n h. h)
find_literal_lem (z ∷ rest) i w s = elim (Bool-cases (equal w z)) [
  | inl e ↦
      let same = equal→≡ w z e in
      let first : starts z ≡ true = ap starts (sym same) ∙ s in
      inl (i, rw e, rw first (inl (same, refl)))
  | inr e ↦ elim (find_literal_lem rest (i + 1) w s) [
    | inl (n, f, h) ↦
        inl (n, rw e f, elim (Bool-cases (starts z)) [ inl t ↦ rw t (inr h) | inr t ↦ rw t h ])
    | inr (f, out) ↦ inr (
      rw e f,
      elim (Bool-cases (starts z)) [
        | inl t ↦ rw t (λ n h. elim h [
          | inl (same, _) ↦ cc (sym (equal_refl w) ∙ ap (equal w) same, e)
          | inr h' ↦ out n h'
        ])
        | inr t ↦ rw t out
      ],
    )
  ]
]

pub lex_token-Names :
    (c : ℕ) (w : List ℕ) → starts (c ∷ w) ≡ true → Names (c ∷ w) (lex_token (c ∷ w))
unfolding lex_token
lex_token-Names c w s = elim (find_literal_lem tok_literal 128 (c ∷ w) s) [
  | inl (n, f, h) ↦
      subst (Names (c ∷ w)) (sym f) (keyword n (subst (Has (c ∷ w) n) words_of-keywords h))
  | inr (f, out) ↦
      subst (Names (c ∷ w)) (sym f)
        (symbol (λ n h. out n (subst (Has (c ∷ w) n) (sym words_of-keywords) h)))
]
