-- ===== src/Protocol/Frame/Stream.antt =====
-- Laws of the stream reader: what `readline` and `readexactly` take, and what they leave.
use wyoming_vietnamese.Common.{
  ◌==◌, Bool-cases, length, take, drop, All, length-append, take-append-drop, ok, ℕ, zero, suc, ◌≤◌,
  ◌≡◌, refl, ap, ◌≢◌, inl, inr, true, false, List, [], ◌∷◌, ◌++◌, arith,
}
use wyoming_vietnamese.Protocol.Frame.{
  split_line, body_length, ends_with_newline, readexactly, readline,
}
use mathlib.Core.List.{append_assoc}
use wyoming_vietnamese.Protocol.Frame.Grammar.{IsLine}

split_line_lem :
    (body rest : List ℕ)
    → All (λ b. b ≢ b'\n') body
    → split_line (body ++ b'\n' ∷ rest) ≡ (body ++ b'\n' ∷ [], rest)
unfolding split_line
split_line_lem [] rest h = refl
split_line_lem (b ∷ bs) rest h = ground (arith, split_line_lem bs rest h.1)

body_length_lem :
    (body rest : List ℕ)
    → All (λ b. b ≢ b'\n') body
    → body_length (body ++ b'\n' ∷ rest) ≡ length body
unfolding body_length
body_length_lem [] rest h = refl
body_length_lem (b ∷ bs) rest h = ground (arith, body_length_lem bs rest h.1)

pub ends_with_newline-append : (body : List ℕ) → ends_with_newline (body ++ b'\n' ∷ []) ≡ true
unfolding ends_with_newline
ends_with_newline-append [] = refl
ends_with_newline-append (b ∷ []) = refl
ends_with_newline-append (b ∷ c ∷ bs) = ends_with_newline-append (c ∷ bs)

pub split_line-append : (s : List ℕ) → (split_line s).0 ++ (split_line s).1 ≡ s
unfolding split_line
split_line-append [] = refl
split_line-append (b ∷ bs) = ground (arith, split_line-append bs)

ends_with_newline-tail :
    (b : ℕ) (bs : List ℕ)
    → (b == b'\n') ≡ false
    → ends_with_newline (b ∷ bs) ≡ true
    → ends_with_newline bs ≡ true
unfolding ends_with_newline
ends_with_newline-tail b [] e h = cc
ends_with_newline-tail b (c ∷ bs) e h = h

split_line_body :
    (s : List ℕ)
    → ends_with_newline (split_line s).0 ≡ true
    → (body : List ℕ) × All (λ b. b ≢ b'\n') body
      × ((split_line s).0 ≡ body ++ b'\n' ∷ [])
      × (length body ≡ body_length s)
unfolding split_line body_length ends_with_newline
split_line_body [] h = cc
split_line_body (b ∷ bs) h = elim (Bool-cases (b == b'\n')) [
  | inl e ↦ ([], tt, ground arith, ground arith)
  | inr e ↦
      let (body, plain, ended, long) =
        split_line_body bs (ends_with_newline-tail b (split_line bs).0 e (ground arith)) in
      (b ∷ body, (ground arith, plain), ground arith, ground arith)
]

-- A line that ends with its newline has a body with no newline, as long as `body_length` says.
pub split_line-IsLine :
    (limit : ℕ) (s : List ℕ)
    → ends_with_newline (split_line s).0 ≡ true
    → body_length s ≤ limit
    → IsLine limit (split_line s).0
split_line-IsLine limit s h k =
    let (body, plain, ended, long) = split_line_body s h in
    record { body = body; plain = plain; ended = ended; fits = omega arith }

readline-append :
    (limit : ℕ) (body rest : List ℕ)
    → All (λ b. b ≢ b'\n') body
    → length body ≤ limit
    → readline limit (body ++ b'\n' ∷ rest) ≡ ok (body ++ b'\n' ∷ [], rest)
unfolding readline
readline-append limit body rest h k =
    ground (arith, split_line_lem body rest h, body_length_lem body rest h)

pub readline_lem :
    (limit : ℕ) (line rest : List ℕ)
    → IsLine limit line
    → readline limit (line ++ rest) ≡ ok (line, rest)
readline_lem limit line rest h =
    rw (h.ended, append_assoc) (readline-append limit h.body rest h.plain h.fits)

take-length-append : (xs rest : List ℕ) → take (length xs) (xs ++ rest) ≡ xs
take-length-append [] rest = refl
take-length-append (x ∷ xs) rest = ap (◌∷◌ x) (take-length-append xs rest)

drop-length-append : (xs rest : List ℕ) → drop (length xs) (xs ++ rest) ≡ rest
drop-length-append [] rest = refl
drop-length-append (x ∷ xs) rest = drop-length-append xs rest

pub readexactly_lem : (xs rest : List ℕ) → readexactly (length xs) (xs ++ rest) ≡ ok (xs, rest)
unfolding readexactly
readexactly_lem xs rest =
    ground (arith, length-append xs rest, take-length-append xs rest, drop-length-append xs rest)

length-take : (n : ℕ) (s : List ℕ) → n ≤ length s → length (take n s) ≡ n
length-take zero s h = refl
length-take (suc n) [] h = absurd (omega arith)
length-take (suc n) (x ∷ xs) h = ap suc (length-take n xs (omega arith))

-- What `readexactly` returns has the length asked for, and is the front of the stream.
pub readexactly_inv :
    (n : ℕ) (s xs rest : List ℕ)
    → readexactly n s ≡ ok (xs, rest)
    → (s ≡ xs ++ rest) × (length xs ≡ n)
unfolding readexactly
readexactly_inv n s xs rest h = ground (arith, take-append-drop n s, length-take n s)
