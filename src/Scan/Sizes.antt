-- ===== src/Scan/Sizes.antt =====
-- The size limit of discovered files.
use fastconf.Base.{
  ◌-◌, ltb, if_cases, length-append, length-drop, ◌+◌, ℕ, zero, suc, ◌≤◌, ◌<◌, ◌≡◌, refl, ap, ◌⊎◌,
  inl, inr, ◌&&◌, Option, none, some, List, [], ◌∷◌, ◌++◌, arith, leb, ◌==◌, Bool-cases, length,
  Result, ok, err, ◌>>=◌, Text,
}
use fastconf.Base.{take, drop, Option-cases, lt→ltb, leb→le}
use fastconf.Base.Int.{ℤ, pos, negsuc}
use fastconf.Scan.Files.{
  read_bounded, stream_after, after_buffer, max_file_bytes, read_tail, filled, whole, read_limited,
  Stream, ReadError, read_all_max, read_upto, ending_of, read_failed, bounded, too_large,
}

pub take-all {ℓ} : {A : Type ℓ} (n : ℕ) (xs : List A) → length xs ≤ n → take n xs ≡ xs
take-all zero [] h = refl
take-all zero (x ∷ xs) h = ground arith
take-all (suc n) [] h = refl
take-all (suc n) (x ∷ xs) h = ap (λ l. x ∷ l) (take-all n xs (omega arith))

pub length-take {ℓ} : {A : Type ℓ} (n : ℕ) (xs : List A) → n ≤ length xs → length (take n xs) ≡ n
length-take zero xs h = refl
length-take (suc n) [] h = ground arith
length-take (suc n) (x ∷ xs) h = ap suc (length-take n xs (omega arith))

pub take-drop {ℓ} : {A : Type ℓ} (n : ℕ) (xs : List A) → take n xs ++ drop n xs ≡ xs
take-drop zero xs = refl
take-drop (suc n) [] = refl
take-drop (suc n) (x ∷ xs) = ap (λ l. x ∷ l) (take-drop n xs)

abbrev pub Fails {ℓ} : {A : Type ℓ} → Result ReadError A → Type ℓ
Fails r = (e : ReadError) × (r ≡ err e)

abbrev pub read_end : Option Text → Text → Result ReadError Text
read_end none data' = ok data'
read_end (some e) data' = err (read_failed e)

-- Reading stops with the content and its end, or with the wanted count.
read_upto-cases :
    (n : ℕ) (s : Stream)
    → ((length s.content ≤ n) × (read_upto (suc n) s ≡ (s.content, ending_of s.fault)))
      ⊎ ((suc n ≤ length s.content)
          × ((read_upto (suc n) s ≡ (take (suc n) s.content, filled))
              ⊎ ((length s.content ≡ suc n)
                  × (read_upto (suc n) s ≡ (s.content, ending_of s.fault)))))
unfolding read_upto
read_upto-cases n s = elim (Bool-cases (leb (length s.content) n)) [
  | inl h ↦ inl (ground arith, rw (h, take-all (suc n) s.content (ground arith)) refl)
  | inr h ↦ inr (
    ground arith,
    elim (Bool-cases (length s.content == suc n && s.eager)) [
      | inl k ↦ inr (ground arith, rw (h, k, take-all (suc n) s.content (ground arith)) refl)
      | inr k ↦ inl (rw (h, k) refl)
    ],
  )
]

whole-end : (s : Stream) → whole (s.content, ending_of s.fault) ≡ read_end s.fault s.content
whole-end s = elim (Option-cases s.fault) [ inl e ↦ rw e refl | inr (x, e) ↦ rw e refl ]

read_limited-cases :
    (n : ℕ) (s : Stream)
    → ((length s.content ≤ n) × (read_limited (suc n) s ≡ read_end s.fault s.content))
      ⊎ ((suc n ≤ length s.content)
          × ((read_limited (suc n) s ≡ ok (take (suc n) s.content))
              ⊎ Fails (read_limited (suc n) s)))
read_limited-cases n s = elim (read_upto-cases n s) [
  | inl (h, e) ↦ inl (h, rw e (whole-end s))
  | inr (h, inl e) ↦ inr (h, inl (rw e refl))
  | inr (h, inr (k, e)) ↦ inr (
    h,
    elim (Option-cases s.fault) [
      | inl x ↦ inl (rw (e, x, take-all (suc n) s.content (ground arith)) refl)
      | inr (y, x) ↦ inr (rw (e, x) (_, refl))
    ],
  )
]

-- Data over the limit is refused, and other data is let through.
bounded-small :
    (n : ℕ) (o : Option Text) (t : Text)
    → length t ≤ n
    → (read_end o t >>= bounded n) ≡ read_end o t
bounded-small n none t h = ground arith
bounded-small n (some e) t h = refl

bounded-large : (n : ℕ) (t : Text) → n < length t → Fails (bounded n t)
bounded-large n t h = rw (lt→ltb n (length t) h) (too_large, refl)

-- Any size limit of a `ReadAllMax`.
read_all_max-cases :
    (n : ℕ) (s : Stream)
    → ((length s.content ≤ n) × (read_all_max s n ≡ read_end s.fault s.content))
      ⊎ ((n < length s.content) × Fails (read_all_max s n))
unfolding read_all_max
read_all_max-cases n s = elim (read_limited-cases n s) [
  | inl (h, e) ↦ inl (h, rw e (bounded-small n s.fault s.content h))
  | inr (h, inl e) ↦ inr (
    h,
    rw e (
        bounded-large n (take (suc n) s.content)
          (rw (length-take (suc n) s.content h) (omega arith))),
  )
  | inr (h, inr (x, e)) ↦ inr (h, rw e (x, refl))
]

-- What a read gives of a stream: all of it when that is within the limit, and else an error.
abbrev pub IsLimited : Stream → Result ReadError Text → Type 0
IsLimited s r =
    ((length s.content ≤ max_file_bytes) × (r ≡ read_end s.fault s.content))
    ⊎ ((max_file_bytes < length s.content) × Fails r)

joined-end :
    (n : ℕ) (o : Option Text) (t : Text)
    → length t ≤ max_file_bytes
    → (read_end o (drop n t) >>= bounded max_file_bytes >>= λ tail.
        bounded max_file_bytes (take n t ++ tail))
      ≡ read_end o t
joined-end n (some e) t h = refl
joined-end n none t h =
    rw (bounded-small max_file_bytes none (drop n t) (rw length-drop (omega arith)), take-drop n t)
      (bounded-small max_file_bytes none t h)

-- The rest after a full buffer of `n` bytes, when `c` more bytes reach one byte over the limit.
abbrev rest_read : ℕ → ℕ → Stream → Result ReadError Text
rest_read n c s = read_tail (stream_after n s) c max_file_bytes >>= λ tail.
    bounded max_file_bytes (take n s.content ++ tail)

too_long :
    (n : ℕ) (s : Stream) (t : Text)
    → n ≤ length s.content
    → n + length t ≡ suc max_file_bytes
    → Fails (bounded max_file_bytes (take n s.content ++ t))
too_long n s t h k =
    bounded-large max_file_bytes (take n s.content ++ t)
      (rw (length-append, length-take n s.content h) (omega arith))

rest_read-IsLimited :
    (n c : ℕ) (s : Stream)
    → 1 ≤ n
    → n ≤ length s.content
    → n + c ≡ suc max_file_bytes
    → IsLimited s (rest_read n c s)
unfolding read_tail
rest_read-IsLimited n zero s z h k = inr (omega arith, unfold read_upto in too_long n s [] h k)
rest_read-IsLimited n (suc c) s z h k = elim (read_limited-cases c (stream_after n s)) [
  | inl (a, e) ↦
      let small : length s.content ≤ max_file_bytes = omega (arith, a, length-drop n s.content) in
      inl (small, rw e (joined-end n s.fault s.content small))
  | inr (a, inl e) ↦
      let t = take (suc c) (drop n s.content) in
      let count : length t ≡ suc c = length-take (suc c) (drop n s.content) a in
      inr (
        omega (arith, a, length-drop n s.content),
        rw (e, bounded-small max_file_bytes none t (omega (arith, count)))
            (too_long n s t h (omega (arith, count))),
      )
  | inr (a, inr (x, e)) ↦ inr (omega (arith, a, length-drop n s.content), rw e (x, refl))
]

after_end :
    (n : ℕ) (s : Stream)
    → length s.content ≤ max_file_bytes
    → after_buffer n s (s.content, ending_of s.fault) ≡ read_end s.fault s.content
after_end n s h = elim (Option-cases s.fault) [
  | inl e ↦ rw e (bounded-small max_file_bytes none s.content h)
  | inr (x, e) ↦ rw e refl
]

after_end-large :
    (n : ℕ) (s : Stream)
    → max_file_bytes < length s.content
    → Fails (after_buffer n s (s.content, ending_of s.fault))
after_end-large n s h = elim (Option-cases s.fault) [
  | inl e ↦ rw e (bounded-large max_file_bytes s.content h)
  | inr (x, e) ↦ rw e (read_failed x, refl)
]

after_end-IsLimited :
    (n : ℕ) (s : Stream) → IsLimited s (after_buffer n s (s.content, ending_of s.fault))
after_end-IsLimited n s = elim (Bool-cases (leb (length s.content) max_file_bytes)) [
  | inl h ↦
      let small = leb→le (length s.content) max_file_bytes h in inl (small, after_end n s small)
  | inr h ↦
      let large : max_file_bytes < length s.content = ground arith in
      inr (large, after_end-large n s large)
]

-- Whatever size the file system told, and whenever the file tells that it ends: readBounded gives
-- the bytes of a file, or its fault, when there are at most MaxFileBytes of them, and an error when
-- there are more.
pub read_bounded-IsLimited : (s : Stream) (size : ℤ) → IsLimited s (read_bounded s size)
unfolding read_bounded
read_bounded-IsLimited s (negsuc n) = read_all_max-cases max_file_bytes s
read_bounded-IsLimited s (pos size) =
    if_cases (IsLimited s) (ltb max_file_bytes size) _ _ (λ h. read_all_max-cases max_file_bytes s)
      (λ h. elim (read_upto-cases size s) [
        | inl (k, e) ↦ rw e (after_end-IsLimited (suc size) s)
        | inr (k, inl e) ↦ rw e (
            rest_read-IsLimited (suc size) (suc max_file_bytes - suc size) s (omega arith) k
              (ground arith))
        | inr (k, inr (x, e)) ↦ rw e (after_end-IsLimited (suc size) s)
      ])
