-- ===== src/Plfsio/Cuckoo/Bytes.antt =====
-- Reading back the bytes of a table of a cuckoo filter, as src/libdeltafs/plfsio/v1/cuckoo.cc
-- writes them.
use mathlib.Core.List.{append_assoc, append-nil}
use deltafs.Prelude.{
  ℕ, zero, suc, ◌+◌, ◌-◌, ◌*◌, ◌^◌, ◌<◌, ◌≡◌, refl, List, [], ◌∷◌, ◌++◌, Bytes, length,
  length-append, take, drop, get_or, arith, ◌∙◌, sym, ap,
}
use deltafs.Plfsio.Cuckoo.Table.{Bucket, u32_mod, no_keys, cell}
use deltafs.Plfsio.Cuckoo.Filter.{Layout, put_space, bucket_at}

module _ {ℓ} {A : Type ℓ} where
  pub drop-append : (n : ℕ) (xs ys : List A) → length xs ≡ n → drop n (xs ++ ys) ≡ ys
  drop-append zero [] ys e = refl
  drop-append (suc n) [] ys e = absurd (omega arith)
  drop-append zero (x ∷ xs) ys e = absurd (omega arith)
  drop-append (suc n) (x ∷ xs) ys e = drop-append n xs ys (omega arith)

  pub drop-drop_append :
      (n m : ℕ) (xs ys : List A) → length xs ≡ n → drop (n + m) (xs ++ ys) ≡ drop m ys
  drop-drop_append zero m [] ys e = ap (λ k. drop k ys) (omega arith)
  drop-drop_append (suc n) m [] ys e = absurd (omega arith)
  drop-drop_append zero m (x ∷ xs) ys e = absurd (omega arith)
  drop-drop_append (suc n) m (x ∷ xs) ys e =
      let shift : suc n + m ≡ suc (n + m) = omega arith in
      rw shift (drop-drop_append n m xs ys (omega arith))

  pub take-append : (n : ℕ) (xs ys : List A) → length xs ≡ n → take n (xs ++ ys) ≡ xs
  take-append zero [] ys e = refl
  take-append (suc n) [] ys e = absurd (omega arith)
  take-append zero (x ∷ xs) ys e = absurd (omega arith)
  take-append (suc n) (x ∷ xs) ys e = ap (λ zs. x ∷ zs) (take-append n xs ys (omega arith))

zero_mul : (n : ℕ) → 0 * n ≡ 0
zero_mul n = omega arith

mul_suc_left : (i n : ℕ) → suc i * n ≡ n + i * n
mul_suc_left i n = grind arith

-- What is relied on: a number is read back, and so are the four cells of a bucket, whatever
-- follows them.
pub record IsLayout (y : Layout) : Type 0 where
  pub fixed32_size : (n : ℕ) → length (y.put_fixed32 n) ≡ 4
  pub fixed32 :
      (n : ℕ) (rest : Bytes) → n < u32_mod → y.decode_fixed32 (y.put_fixed32 n ++ rest) ≡ n
  pub bucket_size : (k v : ℕ) (b : Bucket) → length (y.put_bucket k v b) ≡ y.bucket_size k v
  pub bucket :
      (k v : ℕ) (b : Bucket) (rest : Bytes)
      → ((j : ℕ) → cell b j < 2 ^ (k + v))
      → y.get_bucket k v (y.put_bucket k v b ++ rest) ≡ b

module _ (y : Layout) (l : IsLayout y) (k v : ℕ) where
  pub length-put_space :
      (bs : List Bucket) → length (put_space y k v bs) ≡ length bs * y.bucket_size k v
  unfolding put_space
  length-put_space [] = sym (zero_mul (y.bucket_size k v))
  length-put_space (b ∷ bs) =
      let here = l.bucket_size k v b in
      let rest = length-put_space bs in
      let joined = length-append (y.put_bucket k v b) (put_space y k v bs) in grind arith

  -- A bucket among others is read back.
  pub bucket_at-put_space :
      (bs : List Bucket) (i : ℕ) (rest : Bytes)
      → i < length bs
      → ((j : ℕ) → cell (get_or bs i no_keys) j < 2 ^ (k + v))
      → bucket_at y k v (put_space y k v bs ++ rest) i ≡ get_or bs i no_keys
  unfolding put_space
  bucket_at-put_space [] i rest h small = absurd (omega arith)
  bucket_at-put_space (b ∷ bs) zero rest h small =
      let start = zero_mul (y.bucket_size k v) in
      let later = put_space y k v bs ++ rest in
      ap (λ n. y.get_bucket k v (drop n ((y.put_bucket k v b ++ put_space y k v bs) ++ rest))) start
      ∙ (ap (y.get_bucket k v) (append_assoc (y.put_bucket k v b) (put_space y k v bs) rest)
          ∙ l.bucket k v b later small)
  bucket_at-put_space (b ∷ bs) (suc i) rest h small =
      let size = y.bucket_size k v in
      let later = put_space y k v bs ++ rest in
      let past : drop (suc i * size) ((y.put_bucket k v b ++ put_space y k v bs) ++ rest)
          ≡ drop (i * size) later =
        rw (mul_suc_left i size, append_assoc (y.put_bucket k v b) (put_space y k v bs) rest)
          (drop-drop_append size (i * size) (y.put_bucket k v b) later (l.bucket_size k v b)) in
      ap (y.get_bucket k v) past ∙ bucket_at-put_space bs i rest (omega arith) small

  -- Four numbers behind other bytes, from the end.
  module _ (front : Bytes) (a b c d : ℕ) where
    unfoldable pub numbers : Bytes
    numbers = y.put_fixed32 a ++ (y.put_fixed32 b ++ (y.put_fixed32 c ++ y.put_fixed32 d))

    pub length-numbers : length numbers ≡ 16
    unfolding numbers
    length-numbers = omega (
      arith,
      length-append (y.put_fixed32 a) (y.put_fixed32 b ++ (y.put_fixed32 c ++ y.put_fixed32 d)),
      length-append (y.put_fixed32 b) (y.put_fixed32 c ++ y.put_fixed32 d),
      length-append (y.put_fixed32 c) (y.put_fixed32 d),
      l.fixed32_size a,
      l.fixed32_size b,
      l.fixed32_size c,
      l.fixed32_size d,
    )

    size : length (front ++ numbers) ≡ length front + 16
    size = omega (arith, length-append front numbers, length-numbers)

    pub numbers-front : take (length (front ++ numbers) - 16) (front ++ numbers) ≡ front
    numbers-front = take-append _ front numbers (omega (arith, size))

    pub numbers-second :
        b < u32_mod
        → y.decode_fixed32 (drop (length (front ++ numbers) - 12) (front ++ numbers)) ≡ b
    unfolding numbers
    numbers-second h =
        let place : length (front ++ numbers) - 12 ≡ length front + 4 = omega (arith, size) in
        rw
          (
            place,
            drop-drop_append (length front) 4 front numbers refl,
            drop-append 4 (y.put_fixed32 a)
                (y.put_fixed32 b ++ (y.put_fixed32 c ++ y.put_fixed32 d)) (l.fixed32_size a),
          )
          (l.fixed32 b (y.put_fixed32 c ++ y.put_fixed32 d) h)

    past_two : drop 8 numbers ≡ y.put_fixed32 c ++ y.put_fixed32 d
    unfolding numbers
    past_two =
        drop-drop_append 4 4 (y.put_fixed32 a)
          (y.put_fixed32 b ++ (y.put_fixed32 c ++ y.put_fixed32 d)) (l.fixed32_size a)
        ∙ drop-append 4 (y.put_fixed32 b) (y.put_fixed32 c ++ y.put_fixed32 d) (l.fixed32_size b)

    past_three : drop 12 numbers ≡ y.put_fixed32 d
    unfolding numbers
    past_three =
        drop-drop_append 4 8 (y.put_fixed32 a)
          (y.put_fixed32 b ++ (y.put_fixed32 c ++ y.put_fixed32 d)) (l.fixed32_size a)
        ∙ (drop-drop_append 4 4 (y.put_fixed32 b) (y.put_fixed32 c ++ y.put_fixed32 d)
              (l.fixed32_size b)
            ∙ drop-append 4 (y.put_fixed32 c) (y.put_fixed32 d) (l.fixed32_size c))

    pub numbers-third :
        c < u32_mod → y.decode_fixed32 (drop (length (front ++ numbers) - 8) (front ++ numbers)) ≡ c
    numbers-third h =
        let place : length (front ++ numbers) - 8 ≡ length front + 8 = omega (arith, size) in
        rw (place, drop-drop_append (length front) 8 front numbers refl, past_two)
          (l.fixed32 c (y.put_fixed32 d) h)

    pub numbers-last :
        d < u32_mod → y.decode_fixed32 (drop (length (front ++ numbers) - 4) (front ++ numbers)) ≡ d
    numbers-last h =
        let place : length (front ++ numbers) - 4 ≡ length front + 12 = omega (arith, size) in
        rw
          (
            place,
            drop-drop_append (length front) 12 front numbers refl,
            past_three,
            ← append-nil (y.put_fixed32 d),
          )
          (l.fixed32 d [] h)
