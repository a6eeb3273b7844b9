-- ===== src/Tests/Packets.antt =====
-- Packets: a TCP SYN over IPv4, and a DNS answer.
use pfsnitch.Addr.{v4, addr_eq}
use pfsnitch.Base.{ℕ, true, List, [], ◌∷◌, some, ◌≡◌, ◌≢◌, refl, arith, any, ◌-◌}
use pfsnitch.Divert.Csum.{csum, csum-word_sum, word_sum, ones}
use pfsnitch.Divert.Rst.Answer.{answer_flow, parse-build_rst}
use pfsnitch.Divert.Rst.Accepted.{IsAccepted, Resets, segment_from}
use pfsnitch.Divert.Rst.Whole.{tcp_rst-IsReset}
use pfsnitch.Divert.Rst.{build_rst, tcp_rst}
use pfsnitch.Divert.Safe.{parse-ne-panic, tcp_rst-ne-panic}
use pfsnitch.Divert.{
  ◌>>=◌, ok, panic, index, get, slice, index16, L3, Flow, l3, l3_v4, parse, syn_only,
}
use pfsnitch.Dns.Cache.{name_for-observe, name_for, observe}
use pfsnitch.Dns.Safe.{parse_response-ne-panic}
use pfsnitch.Dns.{
  parse_response, read_name, read_labels, next_label, skip_questions, answers, answer, address,
  dotted, no_ips,
}
use pfsnitch.Tests.{ascii}
use pfsnitch.Text.{codes, is_empty}

abbrev pub syn : List ℕ
syn =
    0x45 ∷ 0 ∷ 0 ∷ 40 ∷ 0 ∷ 0 ∷ 0 ∷ 0 ∷ 64 ∷ 6 ∷ 0 ∷ 0 ∷ 10 ∷ 0 ∷ 0 ∷ 2 ∷ 203 ∷ 0 ∷ 113 ∷ 9 ∷ 0xc0
    ∷ 1 ∷ 1 ∷ 0xbb ∷ 0 ∷ 0 ∷ 0 ∷ 7 ∷ 0 ∷ 0 ∷ 0 ∷ 0 ∷ 0x50 ∷ 2 ∷ 0 ∷ 0 ∷ 0 ∷ 0 ∷ 0 ∷ 0 ∷ []

-- An address of the IPv4 header, cut off behind it.
abbrev cut_off : List ℕ
cut_off = 0x45 ∷ 0 ∷ 0 ∷ 40 ∷ []

abbrev pub syn_flow : Flow
syn_flow = record {
  proto = 6;
  src = v4 (10 ∷ 0 ∷ 0 ∷ 2 ∷ []);
  dst = v4 (203 ∷ 0 ∷ 113 ∷ 9 ∷ []);
  sport = 49153;
  dport = 443;
  syn_only = true;
}

pub parse-syn : parse syn ≡ ok syn_flow
unfolding parse l3 l3_v4 index get index16 syn_only
parse-syn = refl

parse-ne-panic_example : parse cut_off ≢ panic
parse-ne-panic_example = parse-ne-panic cut_off

tcp_rst-ne-panic_example : tcp_rst syn ≢ panic
tcp_rst-ne-panic_example = tcp_rst-ne-panic syn

csum-word_sum_example :
    csum ((1 ∷ 2 ∷ 3 ∷ []) ∷ (4 ∷ 5 ∷ []) ∷ []) ≡ 65535 - ones (word_sum (1 ∷ 2 ∷ 3 ∷ 4 ∷ 5 ∷ []))
csum-word_sum_example =
    csum-word_sum ((1 ∷ 2 ∷ 3 ∷ []) ∷ (4 ∷ 5 ∷ []) ∷ []) (unfold word_sum in omega arith)

abbrev syn_l3 : L3
syn_l3 = record {
  proto = 6;
  src = v4 (10 ∷ 0 ∷ 0 ∷ 2 ∷ []);
  dst = v4 (203 ∷ 0 ∷ 113 ∷ 9 ∷ []);
  l4 = 20;
}

tcp_rst-IsReset_example :
    (rst : List ℕ) × (tcp_rst syn ≡ ok rst)
    × IsAccepted syn_l3.dst syn_l3.src rst
    × Resets 49153 443 2 7 (segment_from syn_l3.dst rst)
unfolding l3 l3_v4 index get index16
tcp_rst-IsReset_example =
    tcp_rst-IsReset syn syn_l3 2 49153 443 0 7 (ground arith) refl refl (omega arith) refl refl refl
      refl refl refl

-- The answer for "a.b" is 203.0.113.9; the name of the record points back to the question.
abbrev dns_reply : List ℕ
dns_reply =
    0 ∷ 1 ∷ 0x81 ∷ 0x80 ∷ 0 ∷ 1 ∷ 0 ∷ 1 ∷ 0 ∷ 0 ∷ 0 ∷ 0 ∷ 1 ∷ b'a' ∷ 1 ∷ b'b' ∷ 0 ∷ 0 ∷ 1 ∷ 0 ∷ 1
    ∷ 0xc0 ∷ 12 ∷ 0 ∷ 1 ∷ 0 ∷ 1 ∷ 0 ∷ 0 ∷ 0 ∷ 60 ∷ 0 ∷ 4 ∷ 203 ∷ 0 ∷ 113 ∷ 9 ∷ []

parse_response-dns_reply :
    parse_response dns_reply ≡ ok (codes "a.b", v4 (203 ∷ 0 ∷ 113 ∷ 9 ∷ []) ∷ [])
unfolding parse_response read_name read_labels next_label skip_questions answers answer address
    dotted no_ips index index16 slice is_empty
parse_response-dns_reply = refl

-- A pointer to itself.
abbrev looping : List ℕ
looping = 0 ∷ 1 ∷ 0x81 ∷ 0x80 ∷ 0 ∷ 1 ∷ 0 ∷ 1 ∷ 0 ∷ 0 ∷ 0 ∷ 0 ∷ 0xc0 ∷ 12 ∷ []

parse_response-ne-panic_example : parse_response looping ≢ panic
parse_response-ne-panic_example = parse_response-ne-panic looping

name_for-observe_example :
    name_for (observe [] dns_reply 100) (v4 (203 ∷ 0 ∷ 113 ∷ 9 ∷ [])) ≡ some (codes "a.b")
unfolding any
name_for-observe_example =
    name_for-observe [] dns_reply 100 (codes "a.b") (v4 (203 ∷ 0 ∷ 113 ∷ 9 ∷ []) ∷ [])
      (v4 (203 ∷ 0 ∷ 113 ∷ 9 ∷ [])) parse_response-dns_reply refl

parse-build_rst_example :
    (build_rst (v4 (10 ∷ 0 ∷ 0 ∷ 2 ∷ [])) (v4 (203 ∷ 0 ∷ 113 ∷ 9 ∷ [])) 49153 443 8 >>= parse)
    ≡ ok (answer_flow (203 ∷ 0 ∷ 113 ∷ 9 ∷ []) (10 ∷ 0 ∷ 0 ∷ 2 ∷ []) 443 49153)
parse-build_rst_example = parse-build_rst 10 0 0 2 203 0 113 9 49153 443 8
