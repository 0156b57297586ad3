-- ===== src/Stream/Output.antt =====
-- What the output buffer holds after each operation.
use ymd.Common.{
  ℕ, zero, suc, ◌+◌, ◌-◌, ◌*◌, ◌≤◌, ◌≡◌, ◌∙◌, refl, ap, arith, leb, Bool-cases, true, Option, none,
  some, inl, inr, List, [], ◌∷◌, ◌++◌, length, take, drop, replicate, length-append, length-take,
  length-drop, leb→le, length-replicate, take_all,
}
use ymd.Dyay.{Memory}
use ymd.Stream.{
  Zostream, zos_buf, block, max_static_len, splice, copy_in, overwrite, enlarged, zos_reserved,
  zos_advance, zos_init,
}

-- The block in use has `max` bytes, at least those of the fixed block, and no more are in use.
pub record IsValid (os : Zostream) : Type 0 where
  pub fits : os.last ≤ os.max
  pub whole : length (zos_buf os) ≡ os.max
  pub static : max_static_len ≤ os.max

-- The bytes written so far.
abbrev pub contents : Zostream → List ℕ
contents os = take os.last (zos_buf os)

take-append : (n : ℕ) (xs ys : List ℕ) → n ≤ length xs → take n (xs ++ ys) ≡ take n xs
take-append zero xs ys h = refl
take-append (suc n) [] ys h = absurd (omega arith)
take-append (suc n) (x ∷ xs) ys h = ap (◌∷◌ x) (take-append n xs ys (omega arith))

take-take : (n : ℕ) (xs : List ℕ) → take n (take n xs) ≡ take n xs
take-take zero xs = refl
take-take (suc n) [] = refl
take-take (suc n) (x ∷ xs) = ap (◌∷◌ x) (take-take n xs)

module _ (m : Memory ℕ) where
  -- The three outcomes of zos_reserved.
  reserved_keeps : (os : Zostream) (k : ℕ) → os.last + k ≤ os.max → zos_reserved m os k ≡ os
  unfolding zos_reserved
  reserved_keeps os k h = ground arith

  reserved_grows :
      (os : Zostream) (k : ℕ)
      → suc os.max ≤ os.last + k
      → IsValid os
      → zos_reserved m os k ≡ record os {
        max = os.max * 2;
        buf = some (enlarged m os.buf os.kbuf os.last (os.max * 2));
      }
  unfolding zos_reserved
  reserved_grows os k h v = ground (arith, v.static)

  enlarged_lem :
      (buf : Option (List ℕ)) (kbuf : List ℕ) (last max : ℕ)
      → length (block buf kbuf) ≤ max
      → last ≤ length (block buf kbuf)
      → (length (enlarged m buf kbuf last max) ≡ max)
        × (take last (enlarged m buf kbuf last max) ≡ take last (block buf kbuf))
  enlarged_lem none kbuf last max h l = (
    omega (
      arith,
      length-append (take last kbuf) (replicate (max - last) 0),
      length-take last kbuf,
      length-replicate {A = ℕ} (max - last) 0,
    ),
    take-append last (take last kbuf) (replicate (max - last) 0)
          (omega (arith, length-take last kbuf))
        ∙ take-take last kbuf,
  )
  enlarged_lem (some buf) kbuf last max h l = (
    omega
        (arith, length-append buf (m.slots (max - length buf)), m.length-slots (max - length buf)),
    take-append last buf (m.slots (max - length buf)) l,
  )

  -- What a reservation promises: a valid buffer with the same contents and room for `k` bytes.
  pub record Reserved (os r : Zostream) (k : ℕ) : Type 0 where
    pub valid : IsValid r
    pub same : contents r ≡ contents os
    pub last : r.last ≡ os.last
    pub room : r.last + k ≤ r.max

  grown_lem :
      (os : Zostream) (k : ℕ)
      → IsValid os
      → k ≤ max_static_len
      → Reserved os
          (record os {
            max = os.max * 2;
            buf = some (enlarged m os.buf os.kbuf os.last (os.max * 2));
          })
          k
  grown_lem os k v h =
      let (len, same) =
        enlarged_lem os.buf os.kbuf os.last (os.max * 2) (omega (arith, v.whole))
          (omega (arith, v.whole, v.fits)) in
      record {
        valid = record {
          fits = omega (arith, v.fits);
          whole = len;
          static = omega (arith, v.static);
        };
        same = same;
        last = refl;
        room = omega (arith, v.fits, v.static);
      }

  pub zos_reserved_lem :
      (os : Zostream) (k : ℕ)
      → IsValid os
      → k ≤ max_static_len
      → Reserved os (zos_reserved m os k) k
  zos_reserved_lem os k v h = elim (Bool-cases (leb (os.last + k) os.max)) [
    | inl t ↦
        let room : os.last + k ≤ os.max = leb→le _ _ t in
        rw (reserved_keeps os k room) (record { valid = v; same = refl; last = refl; room = room })
    | inr f ↦ rw (reserved_grows os k (ground arith) v) (grown_lem os k v h)
  ]

  pub zos_advance_lem :
      (os : Zostream) (k : ℕ)
      → os.last + k ≤ os.max
      → zos_advance m os k ≡ record os { last = os.last + k }
  unfolding zos_advance
  zos_advance_lem os k h = rw (reserved_keeps os k h)

length-splice :
    (buf : List ℕ) (at : ℕ) (z : List ℕ)
    → at + length z ≤ length buf
    → length (splice buf at z) ≡ length buf
length-splice buf at z h = spelled
  where
    spelled : length ((take at buf ++ z) ++ drop (at + length z) buf) ≡ length buf
    spelled = omega (
      arith,
      length-append (take at buf ++ z) (drop (at + length z) buf),
      length-append (take at buf) z,
      length-take at buf,
      length-drop (at + length z) buf,
    )

take-splice :
    (buf : List ℕ) (at : ℕ) (z : List ℕ)
    → at + length z ≤ length buf
    → take (at + length z) (splice buf at z) ≡ take at buf ++ z
take-splice buf at z h =
    ap (λ (n : ℕ). take n (splice buf at z)) size ∙ take_all (take at buf ++ z) rest
  where
    rest : List ℕ
    rest = drop (at + length z) buf

    size : at + length z ≡ length (take at buf ++ z)
    size = omega (arith, length-append (take at buf) z, length-take at buf)

-- The copy goes through, and stands behind the contents.
pub copy_in_lem :
    (os : Zostream) (z : List ℕ)
    → IsValid os
    → os.last + length z ≤ os.max
    → copy_in os z ≡ some (overwrite os.buf os z)
unfolding copy_in
copy_in_lem os z v h = rw fits
  where
    fits : leb (os.last + length z) (length (zos_buf os)) ≡ true
    fits = ground (arith, v.whole)

overwrite_lem :
    (b : Option (List ℕ)) (os : Zostream) (z : List ℕ)
    → os.buf ≡ b
    → zos_buf (overwrite b os z) ≡ splice (zos_buf os) os.last z
overwrite_lem none os z e = rw e
overwrite_lem (some buf) os z e = rw e

pub same_last :
    (b : Option (List ℕ)) (os : Zostream) (z : List ℕ)
    → ((overwrite b os z).last ≡ os.last) × ((overwrite b os z).max ≡ os.max)
same_last none os z = (refl, refl)
same_last (some buf) os z = (refl, refl)

-- The buffer after a write of `z` behind the contents.
abbrev pub written : Zostream → List ℕ → Zostream
written os z = let r = overwrite os.buf os z in record r { last = os.last + length z }

pub written_lem :
    (os : Zostream) (z : List ℕ)
    → IsValid os
    → os.last + length z ≤ os.max
    → IsValid (written os z) × (contents (written os z) ≡ contents os ++ z)
written_lem os z v h = (
  record {
    fits = omega (arith, (same_last os.buf os z).1);
    whole =
        ap length spliced
        ∙ omega (
          arith,
          length-splice (zos_buf os) os.last z enough,
          v.whole,
          (same_last os.buf os z).1,
        );
    static = omega (arith, v.static, (same_last os.buf os z).1);
  },
  ap (take (os.last + length z)) spliced ∙ take-splice (zos_buf os) os.last z enough,
)
  where
    enough : os.last + length z ≤ length (zos_buf os)
    enough = omega (arith, v.whole)

    spliced : zos_buf (overwrite os.buf os z) ≡ splice (zos_buf os) os.last z
    spliced = overwrite_lem os.buf os z refl

-- The buffer starts valid.
pub zos_init-IsValid : IsValid zos_init
unfolding zos_init
zos_init-IsValid = record {
  fits = omega arith;
  whole = length-replicate {A = ℕ} 4096 0;
  static = omega arith;
}
