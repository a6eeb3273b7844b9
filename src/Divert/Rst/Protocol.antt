-- ===== src/Divert/Rst/Protocol.antt =====
-- src/divert.rs: `tcp_rst` answers nothing but TCP.
use pfsnitch.Base.{ℕ, false, List, ◌≡◌, refl, sym, ◌∙◌, ap, ◌==◌, nat_eq, length, ltb, ◌+◌}
use pfsnitch.Divert.Rst.{tcp_rst}
use pfsnitch.Divert.Rst.Route.{When, When-any}
use pfsnitch.Divert.{
  Parsed, ok, refused, panic, ◌>>=◌, ◌>>◌, refuse_if, Flow, L3, index16, l3, syn_only, parse,
}

-- What `parse` does behind the headers.
with_ports : List ℕ → L3 → Parsed Flow
with_ports pkt h = do
  refuse_if (ltb (length pkt) (h.l4 + 4))
  sport ← index16 pkt h.l4
  dport ← index16 pkt (h.l4 + 2)
  syn ← syn_only pkt h
  ok (record {
    proto = h.proto;
    src = h.src;
    dst = h.dst;
    sport = sport;
    dport = dport;
    syn_only = syn;
  })

parse-with_ports : (pkt : List ℕ) → parse pkt ≡ (l3 pkt >>= with_ports pkt)
unfolding parse with_ports
parse-with_ports pkt = refl

SameProto : L3 → Flow → Type 0
SameProto h f = f.proto ≡ h.proto

with_ports-SameProto : (pkt : List ℕ) (h : L3) → When (SameProto h) (with_ports pkt h)
unfolding with_ports SameProto
with_ports-SameProto pkt h =
    When-any (SameProto h) (refuse_if (ltb (length pkt) (h.l4 + 4))) _ (λ _.
      When-any (SameProto h) (index16 pkt h.l4) _ (λ sport.
        When-any (SameProto h) (index16 pkt (h.l4 + 2)) _
          (λ dport. When-any (SameProto h) (syn_only pkt h) _ (λ syn. refl))))

of_headers :
    (pkt : List ℕ) (f : Flow) (m : Parsed L3)
    → (m >>= with_ports pkt) ≡ ok f
    → (h : L3) × (m ≡ ok h) × (f.proto ≡ h.proto)
unfolding SameProto
of_headers pkt f (ok h) e = let w = with_ports-SameProto pkt h in (h, refl, rw e at w)
of_headers pkt f refused e = cc
of_headers pkt f panic e = cc

parse-l3 :
    (pkt : List ℕ) (f : Flow) → parse pkt ≡ ok f → (h : L3) × (l3 pkt ≡ ok h) × (f.proto ≡ h.proto)
parse-l3 pkt f e = of_headers pkt f (l3 pkt) (sym (parse-with_ports pkt) ∙ e)

-- A packet that parses as another protocol is not answered.
pub tcp_rst-other :
    (pkt : List ℕ) (f : Flow) → parse pkt ≡ ok f → (f.proto == 6) ≡ false → tcp_rst pkt ≡ refused
unfolding tcp_rst
tcp_rst-other pkt f e other =
    let (h, is, same) = parse-l3 pkt f e in
    let no_tcp : (h.proto == 6) ≡ false = ap (λ p. p == 6) (sym same) ∙ other in
    rw (is, no_tcp) refl
