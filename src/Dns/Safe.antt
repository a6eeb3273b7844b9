-- ===== src/Dns/Safe.antt =====
-- Reading a DNS answer of src/dns.rs ends without an index out of range, whatever the bytes.
use pfsnitch.Addr.{IpAddr}
use pfsnitch.Base.{
  ℕ, zero, suc, ◌+◌, ◌-◌, ◌*◌, ◌/◌, ◌%◌, ◌<◌, ◌≤◌, ◌&&◌, ◌||◌, List, [], Option, none, ◌≡◌, ◌≢◌,
  arith, ◌==◌, nat_eq, length, ltb, leb, Bool-cases, inl, inr,
}
use pfsnitch.Divert.Safe.{index-ok, refuse-step, >>=-ne-panic, index-step, index16-step}
use pfsnitch.Divert.{Parsed, ok, panic, slice}
use pfsnitch.Dns.{
  pointer, root, label, next_label, read_labels, name_fuel, read_name, skip_questions, address,
  answer, answers, parse_response, max_hops, dotted,
}
use pfsnitch.Text.{Str, Unicode}

-- A pointer uses up one hop, which pays for all the labels behind it.
measure-pointer :
    (j k l off ptr fuel : ℕ)
    → j ≡ suc k
    → off < l
    → ptr < l
    → j * (l + 1) + (l - off) + 1 ≤ suc fuel
    → k * (l + 1) + (l - ptr) + 1 ≤ fuel
measure-pointer j k l off ptr fuel e ho hp h =
    let same : j * (l + 1) ≡ k * (l + 1) + (l + 1) = rw e (omega arith) in omega (arith, same)

module _ ⦃u : Unicode⦄ where
  next_label-ne-panic : (b : List ℕ) (off : ℕ) → next_label b off ≢ panic
  unfolding next_label slice
  next_label-ne-panic b off = elim (Bool-cases (leb (length b) off)) [
    | inl out ↦ rw out (λ e. cc)
    | inr inside ↦
        let (len, e) = index-ok b off (ground arith) in
        rw (inside, e)
          (elim (Bool-cases (leb (length b) (off + 1))) [
            | inl last ↦ rw last (ground arith)
            | inr more ↦
                let (low, e') = index-ok b (off + 1) (ground arith) in rw (more, e') (ground arith)
          ])
  ]

  -- A label moves on, and only inside the packet.
  next_label-label :
      (b : List ℕ) (off : ℕ) (text : Str) (next : ℕ)
      → next_label b off ≡ ok (label text next)
      → (off < length b) × (off < next)
  unfolding next_label slice
  next_label-label b off text next h = ground (arith, h)

  next_label-pointer :
      (b : List ℕ) (off ptr : ℕ) → next_label b off ≡ ok (pointer ptr) → off < length b
  unfolding next_label
  next_label-pointer b off ptr h = ground (arith, h)

  read_labels-ne-panic :
      (fuel : ℕ) (b : List ℕ) (off : ℕ) (after : Option ℕ) (out : Str) (hops : ℕ)
      → (16 - hops) * (length b + 1) + (length b - off) + 1 ≤ fuel
      → read_labels fuel b off after out hops ≢ panic
  unfolding read_labels
  read_labels-ne-panic zero b off after out hops h = absurd (omega arith)
  read_labels-ne-panic (suc fuel) b off after out hops h =
      >>=-ne-panic (next_label b off) _ (next_label-ne-panic b off) (elim [
        | root ↦ λ e e'. cc
        | label text next ↦ λ e.
            let (inside, on) = next_label-label b off text next e in
            read_labels-ne-panic fuel b next after (dotted out text) hops (omega arith)
        | pointer ptr ↦ λ e.
            let inside = next_label-pointer b off ptr e in
            elim (Bool-cases (ltb max_hops (hops + 1) || leb (length b) ptr)) [
              | inl bad ↦ rw bad (λ e'. cc)
              | inr good ↦ rw good (
                  read_labels-ne-panic fuel b ptr _ out (hops + 1) (
                    measure-pointer (16 - hops) (16 - (hops + 1)) (length b) off ptr fuel
                      (ground arith) (omega arith) (ground arith) h))
            ]
      ])

  read_name-ne-panic : (b : List ℕ) (start : ℕ) → read_name b start ≢ panic
  unfolding read_name
  read_name-ne-panic b start = read_labels-ne-panic (name_fuel b) b start none [] 0 (omega arith)

  skip_questions-ne-panic : (n : ℕ) (b : List ℕ) (off : ℕ) → skip_questions n b off ≢ panic
  unfolding skip_questions
  skip_questions-ne-panic zero b off = λ e. cc
  skip_questions-ne-panic (suc n) b off =
      >>=-ne-panic (read_name b off) _ (read_name-ne-panic b off)
        (λ r _. skip_questions-ne-panic n b (r.1 + 4))

  address-ne-panic :
      (b : List ℕ) (rtype rdlen off : ℕ)
      → off + rdlen ≤ length b
      → address b rtype rdlen off ≢ panic
  unfolding address slice
  address-ne-panic b rtype rdlen off h = elim (Bool-cases (rtype == 1 && rdlen == 4)) [
    | inl a ↦ rw a (
        index-step b off _ (ground arith) (λ b0. index-step b (off + 1) _ (ground arith) (λ b1.
          index-step b (off + 2) _ (ground arith)
            (λ b2. index-step b (off + 3) _ (ground arith) (λ b3 e. cc)))))
    | inr other ↦ rw other (ground arith)
  ]

  answer-ne-panic :
      (rest : ℕ → Parsed (List IpAddr)) (b : List ℕ) (off : ℕ)
      → ((o : ℕ) → rest o ≢ panic)
      → off + 10 ≤ length b
      → answer rest b off ≢ panic
  unfolding answer
  answer-ne-panic rest b off k h = index16-step b off _ (omega arith) (λ rtype.
      index16-step b (off + 8) _ (omega arith) (λ rdlen.
        elim (Bool-cases (ltb (length b) (off + 10 + rdlen))) [
          | inl over ↦ rw over (λ e. cc)
          | inr within ↦ rw within (
              >>=-ne-panic (address b rtype rdlen (off + 10)) _
                (address-ne-panic b rtype rdlen (off + 10) (ground arith))
                (λ ips _. >>=-ne-panic (rest (off + 10 + rdlen)) _ (k _) (λ more _ e. cc)))
        ]))

  answers-ne-panic : (n : ℕ) (b : List ℕ) (off : ℕ) → answers n b off ≢ panic
  unfolding answers
  answers-ne-panic zero b off = λ e. cc
  answers-ne-panic (suc n) b off =
      >>=-ne-panic (read_name b off) _ (read_name-ne-panic b off) (λ r _.
        elim (Bool-cases (ltb (length b) (r.1 + 10))) [
          | inl over ↦ rw over (λ e. cc)
          | inr within ↦
              rw within (answer-ne-panic (answers n b) b r.1 (answers-ne-panic n b) (ground arith))
        ])

  -- For every payload, reading the answer ends within the fuel and without an index out of range.
  pub parse_response-ne-panic : (b : List ℕ) → parse_response b ≢ panic
  unfolding parse_response
  parse_response-ne-panic b = refuse-step (ltb (length b) 12) _ (λ long.
      index16-step b 2 _ (ground arith) (λ flags.
        refuse-step (flags / 0x8000 % 2 == 0) _ (λ response.
          index16-step b 4 _ (ground arith) (λ qd. index16-step b 6 _ (ground arith) (λ an.
            refuse-step (qd == 0 || an == 0) _ (λ asked.
              >>=-ne-panic (read_name b 12) _ (read_name-ne-panic b 12) (λ first _.
                >>=-ne-panic (skip_questions (qd - 1) b (first.1 + 4)) _
                  (skip_questions-ne-panic (qd - 1) b (first.1 + 4))
                  (λ off _.
                    >>=-ne-panic (answers an b off) _ (answers-ne-panic an b off)
                      (λ ips _. ground arith)))))))))
