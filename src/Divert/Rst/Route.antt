-- ===== src/Divert/Rst/Route.antt =====
-- src/divert.rs: the addresses that the parser reads from a packet of bytes.
use pfsnitch.Base.{
  ℕ, zero, suc, ◌+◌, ◌*◌, ◌%◌, ◌<◌, ◌≤◌, Bool-cases, inl, inr, ◌||◌, List, [], ◌∷◌, ◌≡◌, refl,
  arith, All, take, drop, length, length-take, length-drop, ltb, nat_eq, ◌∙◌,
}
use pfsnitch.Divert.Rst.Accepted.{IsBytes, IsRoute}
use pfsnitch.Divert.{
  Parsed, ok, refused, panic, ◌>>=◌, refuse_if, index, get, slice, L3, skip_ext, max_ext, l3_v4,
  l3_v6, l3,
}

-- What holds of the value, where there is one.
abbrev pub When {ℓ κ} : {A : Type ℓ} → (A → Type κ) → Parsed A → Type κ
When P (ok a) = P a
When P refused = Unit
When P panic = Unit

pub When-any {ℓ κ ι} :
    {A : Type ℓ} {B : Type ι} (Q : B → Type κ) (m : Parsed A) (f : A → Parsed B)
    → ((a : A) → When Q (f a))
    → When Q (m >>= f)
When-any Q (ok a) f k = k a
When-any Q refused f k = tt
When-any Q panic f k = tt

When-index {κ ι} :
    {B : Type ι} (Q : B → Type κ) (pkt : List ℕ) (i : ℕ) (f : ℕ → Parsed B)
    → IsBytes pkt
    → ((b : ℕ) → b < 256 → When Q (f b))
    → When Q (index pkt i >>= f)
unfolding index
When-index Q [] i f h k = tt
When-index Q (b ∷ bs) zero f h k = k b h.0
When-index Q (b ∷ bs) (suc i) f h k = When-index Q bs i f h.1 k

All-take {ℓ κ} : {A : Type ℓ} (P : A → Type κ) (n : ℕ) (xs : List A) → All P xs → All P (take n xs)
All-take P zero xs h = tt
All-take P (suc n) [] h = tt
All-take P (suc n) (x ∷ xs) h = (h.0, All-take P n xs h.1)

All-drop {ℓ κ} : {A : Type ℓ} (P : A → Type κ) (n : ℕ) (xs : List A) → All P xs → All P (drop n xs)
All-drop P zero xs h = h
All-drop P (suc n) [] h = tt
All-drop P (suc n) (x ∷ xs) h = All-drop P n xs h.1

When-slice {κ ι} :
    {B : Type ι} (Q : B → Type κ) (pkt : List ℕ) (from n : ℕ) (f : List ℕ → Parsed B)
    → IsBytes pkt
    → ((bs : List ℕ) → length bs ≡ n → IsBytes bs → When Q (f bs))
    → When Q (slice pkt from n >>= f)
unfolding slice
When-slice Q pkt from n f h k = elim (Bool-cases (ltb (length pkt) (from + n))) [
  | inl short ↦ rw short tt
  | inr long ↦
      let size : from + n ≤ length pkt = ground arith in
      rw long (
        k (take n (drop from pkt))
          (length-take n (drop from pkt) ∙ omega (arith, length-drop from pkt, size))
          (All-take (λ b. b < 256) n (drop from pkt) (All-drop (λ b. b < 256) from pkt h)))
]

abbrev HasRoute : L3 → Type 0
HasRoute h = IsRoute h.src h.dst

l3_v4-HasRoute : (pkt : List ℕ) → IsBytes pkt → When HasRoute (l3_v4 pkt)
unfolding l3_v4
l3_v4-HasRoute pkt h = When-any HasRoute (refuse_if (ltb (length pkt) 20)) _ (λ _.
    When-any HasRoute (index pkt 0) _ (λ b.
      When-any HasRoute (refuse_if (ltb (b % 16 * 4) 20 || ltb (length pkt) (b % 16 * 4))) _ (λ _.
        When-any HasRoute (index pkt 9) _ (λ proto. When-index HasRoute pkt 12 _ h (λ s0 p0.
          When-index HasRoute pkt 13 _ h (λ s1 p1. When-index HasRoute pkt 14 _ h (λ s2 p2.
            When-index HasRoute pkt 15 _ h (λ s3 p3. When-index HasRoute pkt 16 _ h (λ d0 q0.
              When-index HasRoute pkt 17 _ h (λ d1 q1. When-index HasRoute pkt 18 _ h (λ d2 q2.
                When-index HasRoute pkt 19 _ h (λ d3 q3.
                  (refl, refl, (p0, (p1, (p2, (p3, tt)))), (q0, (q1, (q2, (q3, tt)))))))))))))))))

l3_v6-HasRoute : (pkt : List ℕ) → IsBytes pkt → When HasRoute (l3_v6 pkt)
unfolding l3_v6
l3_v6-HasRoute pkt h = When-any HasRoute (refuse_if (ltb (length pkt) 40)) _ (λ _.
    When-slice HasRoute pkt 8 16 _ h (λ s ls bs. When-slice HasRoute pkt 24 16 _ h (λ d ld bd.
      When-any HasRoute (index pkt 6) _
        (λ nh. When-any HasRoute (skip_ext max_ext pkt nh 40) _ (λ r. (ls, ld, bs, bd))))))

l3-When : (pkt : List ℕ) → IsBytes pkt → When HasRoute (l3 pkt)
unfolding l3
l3-When pkt h =
    When-any HasRoute (get pkt 0) _
      (λ b. ground (arith, l3_v4-HasRoute pkt h, l3_v6-HasRoute pkt h))

pub l3-HasRoute : (pkt : List ℕ) (h : L3) → IsBytes pkt → l3 pkt ≡ ok h → IsRoute h.src h.dst
l3-HasRoute pkt h bytes e = let w = l3-When pkt bytes in rw e at w
