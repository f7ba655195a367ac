-- ===== src/Outbound/Bodies.antt =====
-- src/utils/outboundHttp.ts: how much of a body is read.
use background_jobs.Prelude.{
  ℕ, zero, suc, ◌+◌, ◌-◌, ◌≤◌, ◌<◌, Bool, true, false, Option, none, some, List, [], ◌∷◌, ◌++◌, leb,
  length, length-append, ◌≡◌, ◌⊎◌, refl, sym, ap, subst, ◌∙◌, inl, inr, arith, Bool-cases, ◌==ℕ◌,
  append_assoc, append-nil,
}
use background_jobs.Outbound.{
  Chunk, TextRead, whole_text, over_limit, read_chunks, read_response_text, take, has_more,
  read_prefix, read_response_prefix,
}

-- The body as a whole.
abbrev pub bytes_of : List Chunk → List ℕ
bytes_of [] = []
bytes_of (c ∷ cs) = c ++ bytes_of cs

take-append :
    (n : ℕ) (xs ys : List ℕ) → length xs ≤ n → take n (xs ++ ys) ≡ xs ++ take (n - length xs) ys
take-append n [] ys h = ap (λ k. take k ys) (omega arith)
take-append zero (x ∷ xs) ys h = absurd (omega (arith, h))
take-append (suc n) (x ∷ xs) ys h =
    let q : n - length xs ≡ suc n - suc (length xs) = omega arith in
    ap (λ t. x ∷ t) (take-append n xs ys (omega (arith, h)) ∙ ap (λ k. xs ++ take k ys) q)

take_front : (n : ℕ) (xs ys : List ℕ) → n ≤ length xs → take n (xs ++ ys) ≡ take n xs
take_front zero xs ys h = refl
take_front (suc n) [] ys h = absurd (omega (arith, h))
take_front (suc n) (x ∷ xs) ys h = ap (λ t. x ∷ t) (take_front n xs ys (omega (arith, h)))

length-take : (n : ℕ) (xs : List ℕ) → n ≤ length xs → length (take n xs) ≡ n
length-take zero xs h = refl
length-take (suc n) [] h = absurd (omega (arith, h))
length-take (suc n) (x ∷ xs) h = ap suc (length-take n xs (omega (arith, h)))

-- The bytes that are kept are those of the body up to the limit; all of it unless the result is marked as
-- truncated, and then as many as the limit.
abbrev pub Kept : ℕ → List ℕ → List ℕ × Bool → Type 0
Kept limit body (kept, true) = (kept ≡ take limit body) × (length kept ≡ limit)
Kept limit body (kept, false) = (kept ≡ take limit body) × (kept ≡ body)

take_all : (n : ℕ) (xs : List ℕ) → length xs ≤ n → take n xs ≡ xs
take_all n xs h =
    ap (take n) (sym (append-nil xs))
    ∙ take-append n xs [] h
    ∙ ap (λ t. xs ++ t) (take_nil (n - length xs))
    ∙ append-nil xs
  where
    take_nil : (k : ℕ) → take k [] ≡ []
    take_nil zero = refl
    take_nil (suc k) = refl

full_Kept :
    (limit : ℕ) (read c : List ℕ) (cs : List Chunk)
    → length (read ++ c) ≡ limit
    → Kept limit (read ++ bytes_of (c ∷ cs)) (read ++ c, has_more cs)
full_Kept limit read c [] h =
    let q : read ++ c ≡ read ++ (c ++ []) = ap (λ t. read ++ t) (sym (append-nil c)) in
    (q ∙ sym (take_all limit (read ++ (c ++ [])) (omega (arith, ap length q, h))), q)
full_Kept limit read c (d ∷ ds) h = (
  sym (
      ap (take limit) (sym (append_assoc read c (bytes_of (d ∷ ds))))
      ∙ take-append limit (read ++ c) (bytes_of (d ∷ ds)) (omega (arith, h))
      ∙ ap (λ k. (read ++ c) ++ take k (bytes_of (d ∷ ds))) (zero_left h)
      ∙ append-nil (read ++ c)),
  h,
)
  where
    zero_left : length (read ++ c) ≡ limit → limit - length (read ++ c) ≡ 0
    zero_left e = omega (arith, e)

cut_Kept :
    (limit : ℕ) (read c rest : List ℕ)
    → length read ≤ limit
    → limit - length read ≤ length c
    → Kept limit (read ++ (c ++ rest)) (read ++ take (limit - length read) c, true)
cut_Kept limit read c rest h k = (
  sym (
      take-append limit read (c ++ rest) h
      ∙ ap (λ t. read ++ t) (take_front (limit - length read) c rest k)),
  omega (
    arith,
    length-append read (take (limit - length read) c),
    length-take (limit - length read) c k,
    h,
  ),
)

read_prefix-Kept :
    (limit : ℕ) (read : List ℕ) (cs : List Chunk)
    → length read ≤ limit
    → Kept limit (read ++ bytes_of cs) (read_prefix limit read cs)
unfolding read_prefix
read_prefix-Kept limit read [] h = (
  sym (append-nil read)
      ∙ sym (take_all limit (read ++ []) (omega (arith, ap length (append-nil read), h))),
  sym (append-nil read),
)
read_prefix-Kept limit read (c ∷ cs) h = elim (Bool-cases (leb (length c) (limit - length read))) [
  | inr e ↦
      let q : read_prefix limit read (c ∷ cs) ≡ (read ++ take (limit - length read) c, true) =
        ground arith in
      subst (Kept limit (read ++ (c ++ bytes_of cs))) (sym q)
        (cut_Kept limit read c (bytes_of cs) h (ground arith))
  | inl e ↦ elim (Bool-cases ((length read + length c) ==ℕ limit)) [
    | inl f ↦
        let q : read_prefix limit read (c ∷ cs) ≡ (read ++ c, has_more cs) = ground arith in
        subst (Kept limit (read ++ (c ++ bytes_of cs))) (sym q) (
          full_Kept limit read c cs (
            let g : length read + length c ≡ limit = ground arith in
            omega (arith, g, length-append read c)))
    | inr f ↦
        let q : read_prefix limit read (c ∷ cs) ≡ read_prefix limit (read ++ c) cs = ground arith in
        let le : length c ≤ limit - length read = ground arith in
        subst (λ body. Kept limit body (read_prefix limit read (c ∷ cs)))
          (append_assoc read c (bytes_of cs))
          (subst (Kept limit ((read ++ c) ++ bytes_of cs)) (sym q)
            (read_prefix-Kept limit (read ++ c) cs (omega (arith, length-append read c, h, le))))
  ]
]

-- readResponsePrefix keeps the bytes of the body up to the limit: all of them, or if the result is marked
-- as truncated as many as the limit.
pub read_response_prefix-Kept :
    (limit : ℕ) (chunks : List Chunk)
    → Kept limit (bytes_of chunks) (read_response_prefix limit chunks)
unfolding read_response_prefix
read_response_prefix-Kept limit chunks = read_prefix-Kept limit [] chunks (omega arith)

-- A text is the whole body, within the limit; an error says that the body is longer, or that it was
-- declared to be.
abbrev pub Reads : Option ℕ → ℕ → List ℕ → TextRead → Type 0
Reads declared limit body (whole_text t) = (t ≡ body) × (length t ≤ limit)
Reads declared limit body over_limit =
    (limit < length body) ⊎ ((n : ℕ) × (declared ≡ some n) × (limit < n))

read_chunks-Reads :
    (declared : Option ℕ) (limit : ℕ) (read : List ℕ) (cs : List Chunk)
    → length read ≤ limit
    → Reads declared limit (read ++ bytes_of cs) (read_chunks limit read cs)
unfolding read_chunks
read_chunks-Reads declared limit read [] h = (sym (append-nil read), h)
read_chunks-Reads declared limit read (c ∷ cs) h =
    elim (Bool-cases (leb (length read + length c) limit)) [
      | inr e ↦
          let q : read_chunks limit read (c ∷ cs) ≡ over_limit = ground arith in
          let over : limit < length read + length c = ground arith in
          subst (Reads declared limit (read ++ (c ++ bytes_of cs))) (sym q) (
            inl (
              omega (
                arith,
                over,
                length-append read (c ++ bytes_of cs),
                length-append c (bytes_of cs),
              )))
      | inl e ↦
          let q : read_chunks limit read (c ∷ cs) ≡ read_chunks limit (read ++ c) cs =
            ground arith in
          let le : length read + length c ≤ limit = ground arith in
          subst (λ body. Reads declared limit body (read_chunks limit read (c ∷ cs)))
            (append_assoc read c (bytes_of cs))
            (subst (Reads declared limit ((read ++ c) ++ bytes_of cs)) (sym q) (
              read_chunks-Reads declared limit (read ++ c) cs
                (omega (arith, length-append read c, le))))
    ]

-- readResponseText gives the whole body, which is within the limit, or its error, and then the body is
-- longer than the limit or was declared to be.
pub read_response_text-Reads :
    (declared : Option ℕ) (limit : ℕ) (chunks : List Chunk)
    → Reads declared limit (bytes_of chunks) (read_response_text declared limit chunks)
unfolding read_response_text
read_response_text-Reads none limit chunks = read_chunks-Reads none limit [] chunks (omega arith)
read_response_text-Reads (some n) limit chunks = elim (Bool-cases (leb n limit)) [
  | inl e ↦
      let q : read_response_text (some n) limit chunks ≡ read_chunks limit [] chunks =
        ground arith in
      subst (Reads (some n) limit (bytes_of chunks)) (sym q)
        (read_chunks-Reads (some n) limit [] chunks (omega arith))
  | inr e ↦
      let q : read_response_text (some n) limit chunks ≡ over_limit = ground arith in
      subst (Reads (some n) limit (bytes_of chunks)) (sym q) (inr (n, refl, ground arith))
]
