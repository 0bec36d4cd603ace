-- ===== src/Message/Response/Laws.antt =====
-- What `contentLength()` and `text()` of a response return, by its chunks.
use xmlhttp_request.Prelude.{
  Bytes, List, [], ap, arith, length, length-append, pos, refl, sym, ℕ, ◌%◌, ◌++◌, ◌+◌, ◌<◌, ◌^◌,
  ◌∙◌, ◌∷◌, ◌≡◌, ℤ, Bool,
}
use xmlhttp_request.Message.Response.{
  Response, sum_sizes, content_length, concat, Strings, has_room,
}

-- The number of bytes of all chunks.
unfoldable pub total : List Bytes → ℕ
total [] = 0
total (chunk ∷ chunks) = length chunk + total chunks

sum_sizes_lem :
    (acc : ℕ) (chunks : List Bytes)
    → acc + total chunks < 2 ^ 64
    → sum_sizes acc chunks ≡ acc + total chunks
unfolding sum_sizes total
sum_sizes_lem acc [] h = omega arith
sum_sizes_lem acc (chunk ∷ chunks) h =
    let small : (acc + length chunk) % 2 ^ 64 ≡ acc + length chunk = omega arith in
    rw small (omega (arith, sum_sizes_lem (acc + length chunk) chunks (omega arith)))

total-append : (xs ys : List Bytes) → total (xs ++ ys) ≡ total xs + total ys
unfolding total
total-append [] ys = omega arith
total-append (x ∷ xs) ys = omega (arith, total-append xs ys)

total_one : (chunk : Bytes) → total (chunk ∷ []) ≡ length chunk
unfolding total
total_one chunk = omega arith

length-concat : (chunks : List Bytes) → length (concat chunks) ≡ total chunks
unfolding concat total
length-concat [] = refl
length-concat (x ∷ xs) = omega (arith, length-append x (concat xs), length-concat xs)

content_length-sum :
    (r : Response)
    → r.content_length_ ≡ 0
    → total r.data_ < 2 ^ 63
    → content_length r ≡ (record r { content_length_ = total r.data_ }, pos (total r.data_))
unfolding content_length
content_length-sum r z h = ground (arith, sum_sizes_lem 0 r.data_ (omega arith))

content_length-kept :
    (r : Response)
    → 0 < r.content_length_
    → r.content_length_ < 2 ^ 63
    → content_length r ≡ (r, pos r.content_length_)
unfolding content_length
content_length-kept r p h = ground arith

-- The length of a response whose header gave none is the size of all chunks where it is asked for
-- when they are there. The answer of an earlier call, if it was not 0, is kept instead: chunks that
-- come behind it do not count.
pub content_length_lem :
    (r : Response) (chunks : List Bytes)
    → r.content_length_ ≡ 0
    → 0 < total r.data_
    → total r.data_ + total chunks < 2 ^ 63
    → ((content_length (record r { data_ = r.data_ ++ chunks })).1
        ≡ pos (length (concat (r.data_ ++ chunks))))
      × ((content_length (record (content_length r).0 { data_ = r.data_ ++ chunks })).1
          ≡ pos (length (concat r.data_)))
content_length_lem r chunks z p h = (
  ap {B = ℤ} (λ x. x.1)
        (content_length-sum (record r { data_ = r.data_ ++ chunks }) z
          (omega (arith, total-append r.data_ chunks)))
      ∙ ap pos (sym (length-concat (r.data_ ++ chunks))),
  rw (content_length-sum r z (omega arith)) (
      ap {B = ℤ} (λ x. x.1)
        (content_length-kept
          (record r { content_length_ = total r.data_; data_ = r.data_ ++ chunks }) p (omega arith))
      ∙ ap pos (sym (length-concat r.data_))),
)

content_length-data : (r : Response) → (content_length r).0.data_ ≡ r.data_
unfolding content_length
content_length-data r = refl

-- Whether `text()` finds its memory.
abbrev pub finds_room : Strings → Response → Bool
finds_room strings r = has_room strings (content_length r).1 r.data_
