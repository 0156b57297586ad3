-- ===== src/Stack/Contents.antt =====
-- What the stack operations do to the values on the stack.
use ymd.Common.{
  ℕ, zero, suc, ◌+◌, ◌-◌, ◌≤◌, ◌<◌, ◌≡◌, ◌∙◌, refl, sym, ap, arith, ltb, leb, Bool-cases, inl, inr,
  false, some, List, [], ◌∷◌, ◌++◌, length, set, take, drop, replicate, length-append, length-set,
  length-take, length-drop, length-replicate, ltb→lt, lt→ltb,
}
use mathlib.Core.List.{append_assoc, append-nil}
use ymd.Stack.{Stack, max_stack, ymd_push, ymd_pop, push_nils, ymd_adjust}

pub record IsValid {A : Type 0} (l : Stack A) : Type 0 where
  pub whole : length l.stk ≡ max_stack
  pub fits : l.top ≤ max_stack

-- The values on the stack, the lowest first.
abbrev pub values : {A : Type 0} → Stack A → List A
values l = take l.top l.stk

module _ {A : Type 0} where
  pub take-set :
      (xs : List A) (i : ℕ) (v : A)
      → i < length xs
      → take (suc i) (set xs i v) ≡ take i xs ++ v ∷ []
  take-set [] i v h = absurd (omega arith)
  take-set (x ∷ xs) zero v h = refl
  take-set (x ∷ xs) (suc i) v h = ap (◌∷◌ x) (take-set xs i v (omega arith))

  pub take_prefix : (n : ℕ) (xs ys : List A) → length xs ≡ n → take n (xs ++ ys) ≡ xs
  take_prefix zero [] ys e = refl
  take_prefix zero (x ∷ xs) ys e = absurd (omega arith)
  take_prefix (suc n) [] ys e = absurd (omega arith)
  take_prefix (suc n) (x ∷ xs) ys e = ap (◌∷◌ x) (take_prefix n xs ys (omega arith))

  take-take_less : (m n : ℕ) (xs : List A) → m ≤ n → take m (take n xs) ≡ take m xs
  take-take_less zero n xs h = refl
  take-take_less (suc m) zero xs h = absurd (omega arith)
  take-take_less (suc m) (suc n) [] h = refl
  take-take_less (suc m) (suc n) (x ∷ xs) h = ap (◌∷◌ x) (take-take_less m n xs (omega arith))

  take_beyond : (n : ℕ) (xs : List A) → length xs ≤ n → take n xs ≡ xs
  take_beyond zero [] h = refl
  take_beyond zero (x ∷ xs) h = absurd (omega arith)
  take_beyond (suc n) [] h = refl
  take_beyond (suc n) (x ∷ xs) h = ap (◌∷◌ x) (take_beyond n xs (omega arith))

  module _ (nil : A) where
    abbrev popped : Stack A → ℕ → Stack A
    popped l n =
        let top = l.top - n in
        record { stk = take top l.stk ++ replicate n nil ++ drop (top + n) l.stk; top = top }

    ymd_pop-popped : (l : Stack A) (n : ℕ) → n ≤ l.top → ymd_pop nil l n ≡ some (popped l n)
    unfolding ymd_pop
    ymd_pop-popped l n h = ground arith

    -- On a valid stack ymd_pop of no more values than there are goes through, and leaves the others.
    pub ymd_pop_lem :
        (l : Stack A) (n : ℕ)
        → IsValid l
        → n ≤ l.top
        → (l' : Stack A) × (ymd_pop nil l n ≡ some l')
          × IsValid l'
          × (values l' ≡ take (l.top - n) (values l))
    ymd_pop_lem l n v h = (
      popped l n,
      ymd_pop-popped l n h,
      record { whole = size; fits = omega (arith, v.fits) },
      kept,
    )
      where
        top : ℕ
        top = l.top - n

        front : List A
        front = take top l.stk

        tail : List A
        tail = drop (top + n) l.stk

        short : length front ≡ top
        short = omega (arith, length-take top l.stk, v.whole, v.fits)

        size : length ((front ++ replicate n nil) ++ tail) ≡ max_stack
        size = omega (
          arith,
          length-append (front ++ replicate n nil) tail,
          length-append front (replicate n nil),
          short,
          length-replicate n nil,
          length-drop (top + n) l.stk,
          v.whole,
          v.fits,
        )

        kept : take top ((front ++ replicate n nil) ++ tail) ≡ take top (values l)
        kept =
            ap (take top) (append_assoc front (replicate n nil) tail)
            ∙ take_prefix top front (replicate n nil ++ tail) short
            ∙ sym (take-take_less top l.top l.stk (omega arith))

    abbrev pub pushed : Stack A → Stack A
    pushed l = record { stk = set l.stk l.top nil; top = l.top + 1 }

    push_nils_step :
        (l : Stack A) (i : ℕ)
        → l.top < max_stack
        → push_nils nil (suc i) l ≡ push_nils nil i (pushed l)
    unfolding push_nils ymd_push
    push_nils_step l i h = rw room
      where
        room : leb max_stack l.top ≡ false
        room = ground arith

    pub pushed-IsValid : (l : Stack A) → IsValid l → l.top < max_stack → IsValid (pushed l)
    pushed-IsValid l v h = record {
      whole = length-set l.stk l.top nil ∙ v.whole;
      fits = omega arith;
    }

    pub values-pushed :
        (l : Stack A) → IsValid l → l.top < max_stack → values (pushed l) ≡ values l ++ nil ∷ []
    values-pushed l v h =
        ap (λ (n : ℕ). take n (set l.stk l.top nil)) next
        ∙ take-set l.stk l.top nil (omega (arith, v.whole))
      where
        next : l.top + 1 ≡ suc l.top
        next = omega arith

    push_nils_lem :
        (i : ℕ) (l : Stack A)
        → IsValid l
        → l.top + i ≤ max_stack
        → (l' : Stack A) × (push_nils nil i l ≡ some l')
          × IsValid l'
          × (values l' ≡ values l ++ replicate i nil)
    unfolding push_nils
    push_nils_lem zero l v h = (l, refl, v, sym (append-nil _))
    push_nils_lem (suc i) l v h =
        let room : l.top < max_stack = omega arith in
        let (l', e, v', c) = push_nils_lem i (pushed l) (pushed-IsValid l v room) (omega arith) in
        (
          l',
          push_nils_step l i room ∙ e,
          v',
          c
              ∙ ap (λ b. b ++ replicate i nil) (values-pushed l v room)
              ∙ append_assoc (values l) (nil ∷ []) (replicate i nil),
        )

    adjust_less :
        (l : Stack A) (adjust ret : ℕ)
        → adjust < ret
        → ymd_adjust nil l adjust ret ≡ ymd_pop nil l (ret - adjust)
    unfolding ymd_adjust
    adjust_less l adjust ret h = rw (lt→ltb adjust ret h)

    adjust_more :
        (l : Stack A) (adjust ret : ℕ)
        → ret ≤ adjust
        → ymd_adjust nil l adjust ret ≡ push_nils nil (adjust - ret) l
    unfolding ymd_adjust push_nils
    adjust_more l adjust ret h = elim (Bool-cases (ltb ret adjust)) [
      | inl t ↦ rw (less, t)
      | inr f ↦ rw (less, f, none_missing f)
    ]
      where
        less : ltb adjust ret ≡ false
        less = ground arith

        none_missing : ltb ret adjust ≡ false → adjust - ret ≡ 0
        none_missing f = ground arith

    -- On a valid stack with `ret` values or more, and with room for the result, ymd_adjust goes
    -- through: it keeps the values below the `ret` upper ones and the lower `adjust` of these, and
    -- puts nil for each that is missing.
    pub ymd_adjust_lem :
        (l : Stack A) (adjust ret : ℕ)
        → IsValid l
        → ret ≤ l.top
        → l.top - ret + adjust ≤ max_stack
        → (l' : Stack A) × (ymd_adjust nil l adjust ret ≡ some l')
          × IsValid l'
          × (values l' ≡ take (l.top - ret + adjust) (values l) ++ replicate (adjust - ret) nil)
    ymd_adjust_lem l adjust ret v h room = elim (Bool-cases (ltb adjust ret)) [
      | inl t ↦
          let less : adjust < ret = ltb→lt adjust ret t in
          let (l', e, v', c) = ymd_pop_lem l (ret - adjust) v (omega arith) in
          (l', adjust_less l adjust ret less ∙ e, v', c ∙ upper less)
      | inr f ↦
          let more : ret ≤ adjust = ground arith in
          let (l', e, v', c) = push_nils_lem (adjust - ret) l v (omega arith) in
          (l', adjust_more l adjust ret more ∙ e, v', c ∙ whole more)
    ]
      where
        upper :
            adjust < ret
            → take (l.top - (ret - adjust)) (values l)
              ≡ take (l.top - ret + adjust) (values l) ++ replicate (adjust - ret) nil
        upper less =
            ap (λ (n : ℕ). take n (values l)) same_size
            ∙ sym (append-nil (take (l.top - ret + adjust) (values l)))
            ∙ ap (λ (n : ℕ). take (l.top - ret + adjust) (values l) ++ replicate n nil) nothing
          where
            same_size : l.top - (ret - adjust) ≡ l.top - ret + adjust
            same_size = omega arith

            nothing : 0 ≡ adjust - ret
            nothing = omega arith

        whole :
            ret ≤ adjust
            → values l ++ replicate (adjust - ret) nil
              ≡ take (l.top - ret + adjust) (values l) ++ replicate (adjust - ret) nil
        whole more =
            ap (λ b. b ++ replicate (adjust - ret) nil)
              (sym (
                take_beyond (l.top - ret + adjust) (values l)
                  (omega (arith, length-take l.top l.stk))))
