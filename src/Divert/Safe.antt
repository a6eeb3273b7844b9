-- ===== src/Divert/Safe.antt =====
-- The parser reads no byte out of range, whatever the packet.
use pfsnitch.Base.{
  ℕ, zero, suc, ◌+◌, ◌*◌, ◌%◌, ◌^◌, ◌<◌, ◌≤◌, Bool, true, false, not, ◌&&◌, ◌||◌, List, [], ◌∷◌,
  none, some, ◌≡◌, ◌≢◌, refl, arith, ◌==◌, nat_eq, length, ltb, leb, Bool-cases, inl, inr,
}
use pfsnitch.Addr.{IpAddr, v4, v6}
use pfsnitch.Divert.Rst.{tcp_rst, build_rst, rst_ack}
use pfsnitch.Divert.{
  Parsed, ok, refused, panic, ◌>>=◌, ◌>>◌, refuse_if, index, get, slice, index16, L3, ext_len,
  skip_ext, l3_v4, l3_v6, l3, syn_only, parse, payload_of, payload_offset, has_bit,
}

pub index-ok : (pkt : List ℕ) (i : ℕ) → i < length pkt → (b : ℕ) × (index pkt i ≡ ok b)
unfolding index
index-ok [] i h = absurd (omega arith)
index-ok (b ∷ bs) zero h = (b, refl)
index-ok (b ∷ bs) (suc i) h = index-ok bs i (omega arith)

get-ne-panic : (pkt : List ℕ) (i : ℕ) → get pkt i ≢ panic
unfolding get
get-ne-panic [] i = ground arith
get-ne-panic (b ∷ bs) zero = ground arith
get-ne-panic (b ∷ bs) (suc i) = get-ne-panic bs i

-- A step that does not panic, then one that does not after any value.
pub >>=-ne-panic {ℓ κ} :
    {A : Type ℓ} {B : Type κ} (m : Parsed A) (f : A → Parsed B)
    → m ≢ panic
    → ((a : A) → m ≡ ok a → f a ≢ panic)
    → (m >>= f) ≢ panic
>>=-ne-panic (ok a) f h k = k a refl
>>=-ne-panic refused f h k = λ e. cc
>>=-ne-panic panic f h k = absurd (h refl)

abbrev Total {ℓ} : {A : Type ℓ} → Parsed A → Type ℓ
Total m = m ≢ panic

pub refuse-step {ℓ} :
    {B : Type ℓ} (b : Bool) (k : Parsed B) → (b ≡ false → k ≢ panic) → (refuse_if b >> k) ≢ panic
refuse-step true k h = λ e. cc
refuse-step false k h = h refl

pub index-step {ℓ} :
    {B : Type ℓ} (pkt : List ℕ) (i : ℕ) (f : ℕ → Parsed B)
    → i < length pkt
    → ((b : ℕ) → f b ≢ panic)
    → (index pkt i >>= f) ≢ panic
index-step pkt i f h k = let (b, e) = index-ok pkt i h in rw e (k b)

pub index16-step {ℓ} :
    {B : Type ℓ} (pkt : List ℕ) (i : ℕ) (f : ℕ → Parsed B)
    → i + 1 < length pkt
    → ((b : ℕ) → f b ≢ panic)
    → (index16 pkt i >>= f) ≢ panic
unfolding index16
index16-step pkt i f h k =
    let (a, e) = index-ok pkt i (omega arith) in
    let (b, e') = index-ok pkt (i + 1) h in rw (e, e') (k _)

get-step {ℓ} :
    {B : Type ℓ} (pkt : List ℕ) (i : ℕ) (f : ℕ → Parsed B)
    → ((b : ℕ) → f b ≢ panic)
    → (get pkt i >>= f) ≢ panic
get-step pkt i f k = >>=-ne-panic (get pkt i) f (get-ne-panic pkt i) (λ b e. k b)

ok-ne-panic {ℓ} : {A : Type ℓ} (a : A) → ok a ≢ panic
ok-ne-panic a = λ e. cc

l3_v4-ne-panic : (pkt : List ℕ) → l3_v4 pkt ≢ panic
unfolding l3_v4
l3_v4-ne-panic pkt = elim (Bool-cases (ltb (length pkt) 20)) [
  | inl short ↦ rw short (λ e. cc)
  | inr long ↦
      let size : 20 ≤ length pkt = ground arith in
      let (b, e0) = index-ok pkt 0 (omega arith) in
      let (proto, e9) = index-ok pkt 9 (omega arith) in
      let (s0, e12) = index-ok pkt 12 (omega arith) in
      let (s1, e13) = index-ok pkt 13 (omega arith) in
      let (s2, e14) = index-ok pkt 14 (omega arith) in
      let (s3, e15) = index-ok pkt 15 (omega arith) in
      let (d0, e16) = index-ok pkt 16 (omega arith) in
      let (d1, e17) = index-ok pkt 17 (omega arith) in
      let (d2, e18) = index-ok pkt 18 (omega arith) in
      let (d3, e19) = index-ok pkt 19 (omega arith) in
      rw (long, e0)
        (elim (Bool-cases (ltb (b % 16 * 4) 20 || ltb (length pkt) (b % 16 * 4))) [
          | inl bad ↦ rw bad (λ e. cc)
          | inr good ↦ rw (good, e9, e12, e13, e14, e15, e16, e17, e18, e19) (λ e. cc)
        ])
]

ext_len-ne-panic : (pkt : List ℕ) (nh off : ℕ) → ext_len pkt nh off ≢ panic
unfolding ext_len
ext_len-ne-panic pkt nh off =
    ground
      (arith, get-ne-panic pkt (off + 1), get-ne-panic pkt (off + 2), get-ne-panic pkt (off + 3))

skip_ext-ne-panic : (rounds : ℕ) (pkt : List ℕ) (nh off : ℕ) → skip_ext rounds pkt nh off ≢ panic
unfolding skip_ext
skip_ext-ne-panic zero pkt nh off = λ e. cc
skip_ext-ne-panic (suc rounds) pkt nh off =
    >>=-ne-panic (ext_len pkt nh off) _ (ext_len-ne-panic pkt nh off) (elim [
      | none ↦ λ e h. cc
      | some len ↦ λ e.
          get-step pkt off _ (λ nh'. ground (arith, skip_ext-ne-panic rounds pkt nh' (off + len)))
    ])

l3_v6-ne-panic : (pkt : List ℕ) → l3_v6 pkt ≢ panic
unfolding l3_v6 slice
l3_v6-ne-panic pkt = elim (Bool-cases (ltb (length pkt) 40)) [
  | inl short ↦ rw short (λ e. cc)
  | inr long ↦
      let (nh, e6) = index-ok pkt 6 (ground arith) in
      let near : ltb (length pkt) 24 ≡ false = ground arith in
      rw (long, near, e6) (ground (arith, skip_ext-ne-panic 8 pkt nh 40))
]

l3-ne-panic : (pkt : List ℕ) → l3 pkt ≢ panic
unfolding l3
l3-ne-panic pkt = get-step pkt 0 _ (λ b. ground (arith, l3_v4-ne-panic pkt, l3_v6-ne-panic pkt))

syn_only-ne-panic : (pkt : List ℕ) (h : L3) → syn_only pkt h ≢ panic
unfolding syn_only
syn_only-ne-panic pkt h = elim (Bool-cases (h.proto == 6 && leb (h.l4 + 14) (length pkt))) [
  | inl tcp ↦ let (b, e) = index-ok pkt (h.l4 + 13) (ground arith) in rw (tcp, e) (λ e. cc)
  | inr other ↦ rw other (λ e. cc)
]

-- For every packet `parse` gives a flow or refuses it, and never indexes out of range.
pub parse-ne-panic : (pkt : List ℕ) → parse pkt ≢ panic
unfolding parse
parse-ne-panic pkt = >>=-ne-panic (l3 pkt) _ (l3-ne-panic pkt) (λ h _.
    elim (Bool-cases (ltb (length pkt) (h.l4 + 4))) [
      | inl short ↦ rw short (λ e. cc)
      | inr long ↦ rw long (
          index16-step pkt h.l4 _ (ground arith) (λ sport.
            index16-step pkt (h.l4 + 2) _ (ground arith)
              (λ dport. >>=-ne-panic (syn_only pkt h) _ (syn_only-ne-panic pkt h) (λ syn _ e. cc))))
    ])

-- For every packet `payload_offset` gives an offset or refuses the packet, and never indexes out of
-- range.
pub payload_offset-ne-panic : (pkt : List ℕ) → payload_offset pkt ≢ panic
unfolding payload_offset payload_of
payload_offset-ne-panic pkt =
    >>=-ne-panic (l3 pkt) _ (l3-ne-panic pkt) (λ h _. ground (arith, get-ne-panic pkt (h.l4 + 12)))

build_rst-ne-panic : (s d : IpAddr) (sport dport ack : ℕ) → build_rst s d sport dport ack ≢ panic
unfolding build_rst
build_rst-ne-panic (v4 s) (v4 d) sport dport ack = λ e. cc
build_rst-ne-panic (v4 s) (v6 d) sport dport ack = λ e. cc
build_rst-ne-panic (v6 s) (v4 d) sport dport ack = λ e. cc
build_rst-ne-panic (v6 s) (v6 d) sport dport ack = λ e. cc

-- For every packet `tcp_rst` builds a reset or refuses the packet, and never indexes out of range.
pub tcp_rst-ne-panic : (pkt : List ℕ) → tcp_rst pkt ≢ panic
unfolding tcp_rst
tcp_rst-ne-panic pkt = >>=-ne-panic (l3 pkt) _ (l3-ne-panic pkt) (λ h _.
    elim (Bool-cases (not (h.proto == 6) || ltb (length pkt) (h.l4 + 20))) [
      | inl other ↦ rw other (λ e. cc)
      | inr tcp ↦
          let size : h.l4 + 20 ≤ length pkt = ground arith in
          let (flags, e) = index-ok pkt (h.l4 + 13) (omega arith) in
          rw (tcp, e)
            (elim (Bool-cases (has_bit 4 flags)) [
              | inl reset ↦ rw reset (λ e. cc)
              | inr live ↦ rw live (
                  index16-step pkt h.l4 _ (omega arith) (λ sport.
                    index16-step pkt (h.l4 + 2) _ (omega arith) (λ dport.
                      index16-step pkt (h.l4 + 4) _ (omega arith) (λ high.
                        index16-step pkt (h.l4 + 6) _ (omega arith) (λ low.
                          build_rst-ne-panic h.src h.dst sport dport
                            (rst_ack flags (high * 2 ^ 16 + low)))))))
            ])
    ])
