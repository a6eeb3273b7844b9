-- ===== src/Divert/Rst/Answer.antt =====
-- The reset of src/divert.rs goes back to the sender: it parses as a segment of the peer.
use pfsnitch.Addr.{v4}
use pfsnitch.Base.{ℕ, false, List, [], ◌∷◌, ◌≡◌, refl}
use pfsnitch.Divert.Rst.Accepted.{be16-bytes16}
use pfsnitch.Divert.Rst.{segment, header_v4, sealed, sealed_v4, build_rst, tcp_rst}
use pfsnitch.Divert.{ok, refused, ◌>>=◌, Flow, index, get, index16, l3, l3_v4, syn_only, parse}

-- The flow of a TCP segment that opens no connection.
abbrev pub answer_flow : List ℕ → List ℕ → ℕ → ℕ → Flow
answer_flow src dst sport dport = record {
  proto = 6;
  src = v4 src;
  dst = v4 dst;
  sport = sport;
  dport = dport;
  syn_only = false;
}

-- The reset that is built for a TCP packet over IPv4 is parsed as a flow of TCP from the packet's
-- destination to its source, its ports swapped, that is no connection attempt: for every pair of
-- addresses, every pair of ports and every acknowledgement number.
pub parse-build_rst :
    (s0 s1 s2 s3 d0 d1 d2 d3 sport dport ack : ℕ)
    → (build_rst (v4 (s0 ∷ s1 ∷ s2 ∷ s3 ∷ [])) (v4 (d0 ∷ d1 ∷ d2 ∷ d3 ∷ [])) sport dport ack
        >>= parse)
      ≡ ok (answer_flow (d0 ∷ d1 ∷ d2 ∷ d3 ∷ []) (s0 ∷ s1 ∷ s2 ∷ s3 ∷ []) dport sport)
unfolding build_rst parse l3 l3_v4 index get index16 syn_only sealed_v4 header_v4 sealed segment
parse-build_rst s0 s1 s2 s3 d0 d1 d2 d3 sport dport ack =
    rw (be16-bytes16 sport, be16-bytes16 dport)

-- A reset is never answered with a reset: the one that is built for a TCP packet over IPv4 is refused
-- by `tcp_rst`, for every pair of addresses, every pair of ports and every acknowledgement number.
tcp_rst-build_rst :
    (s0 s1 s2 s3 d0 d1 d2 d3 sport dport ack : ℕ)
    → (build_rst (v4 (s0 ∷ s1 ∷ s2 ∷ s3 ∷ [])) (v4 (d0 ∷ d1 ∷ d2 ∷ d3 ∷ [])) sport dport ack
        >>= tcp_rst)
      ≡ refused
unfolding build_rst tcp_rst l3 l3_v4 index get index16 sealed_v4 header_v4 sealed segment
tcp_rst-build_rst s0 s1 s2 s3 d0 d1 d2 d3 sport dport ack = refl
