-- ===== src/Sampling/Ring/Drains.antt =====
-- `drain` of src/privileged_helper/process/snapshot/perf.rs over any contents of the ring.
use procinsh.Prelude.{
  ℕ, zero, suc, ◌+◌, ◌-◌, ◌≤◌, ◌<◌, ◌≡◌, ◌≢◌, refl, ap, inl, inr, ◌&&◌, ◌||◌, not, List, leb, ltb,
  ◌==◌, min, if_both, if_split, option_split, length, take, drop, Option, none, ok, err,
  Result-cases, ◌>>=◌, arith,
}
use procinsh.Ipc.Codec.{from_ne_bytes}
use procinsh.Ipc.Registers.{Target, register_count}
use procinsh.Sampling.Perf.{
  RawSample, out_of_rounds, Reading, take_bytes, take_u64, is_captured, take_registers,
  parse_perf_sample,
}
use procinsh.Sampling.Ring.{
  PerfEventReader, u64_count, wrapping_sub, wrapping_add, header_size, copy, Drained, sample_record,
  switch_trailer, switch_record, lost_record, handle_record, next_record, drain_records, resync,
  drain,
}

-- The parsers fail for reasons of the program only.
abbrev Ends : {A : Type 0} → Reading A → Type 0
Ends r = r ≢ err out_of_rounds

bind-Ends :
    {A B : Type 0} (m : Reading A) (k : A → Reading B)
    → Ends m
    → ((a : A) → Ends (k a))
    → Ends (m >>= k)
bind-Ends (ok a) k h f = f a
bind-Ends (err e) k h f = λ x. h (cc x)

take_bytes-Ends : (n : ℕ) (bytes : List ℕ) → Ends (take_bytes n bytes)
unfolding take_bytes
take_bytes-Ends n bytes =
    if_both (λ (r : Reading (List ℕ × List ℕ)). Ends r) (leb n (length bytes)) (λ e. cc e)
      (λ e. cc e)

take_u64-Ends : (bytes : List ℕ) → Ends (take_u64 bytes)
unfolding take_u64
take_u64-Ends bytes = bind-Ends (take_bytes 8 bytes) _ (take_bytes-Ends 8 bytes) (λ _ e. cc e)

take_registers-Ends :
    (target : Target) (count i : ℕ) (bytes : List ℕ) → Ends (take_registers target count i bytes)
unfolding take_registers
take_registers-Ends target zero i bytes = λ e. cc e
take_registers-Ends target (suc count) i bytes =
    bind-Ends _ _
      (if_both (λ (r : Reading (ℕ × List ℕ)). Ends r) (is_captured target i) (take_u64-Ends bytes)
        (λ e. cc e))
      (λ (value, rest). bind-Ends _ _ (take_registers-Ends target count (i + 1) rest) (λ _ e. cc e))

parse_perf_sample-Ends : (target : Target) (bytes : List ℕ) → Ends (parse_perf_sample target bytes)
unfolding parse_perf_sample
parse_perf_sample-Ends target bytes =
    let P = λ (r : Reading (Option RawSample)). Ends r in
    bind-Ends (take_bytes 8 bytes) _ (take_bytes-Ends 8 bytes) (λ a.
      bind-Ends (take_u64 a.1) _ (take_u64-Ends a.1) (λ b.
        bind-Ends (take_u64 b.1) _ (take_u64-Ends b.1) (λ c.
          bind-Ends (take_u64 c.1) _ (take_u64-Ends c.1) (λ d.
            if_both P (d.0 == 0) (λ e. cc e)
              (if_both P (d.0 == 2)
                (bind-Ends _ _ (take_registers-Ends target (register_count target) 0 d.1) (λ r.
                  bind-Ends (take_u64 r.1) _ (take_u64-Ends r.1) (λ z.
                    bind-Ends (take_bytes z.0 z.1) _ (take_bytes-Ends z.0 z.1) (λ k.
                      bind-Ends _ _
                        (if_both (λ (q : Reading (ℕ × List ℕ)). Ends q) (z.0 == 0) (λ e. cc e)
                          (take_u64-Ends k.1))
                        (λ u. if_both P (leb u.0 z.0) (λ e. cc e) (λ e. cc e))))))
                (λ e. cc e))))))

switch_trailer-Ends : (bytes : List ℕ) → Ends (switch_trailer bytes)
unfolding switch_trailer
switch_trailer-Ends bytes = bind-Ends (take_bytes 8 bytes) _ (take_bytes-Ends 8 bytes) (λ a.
    bind-Ends (take_u64 a.1) _ (take_u64-Ends a.1)
      (λ b. bind-Ends (take_u64 b.1) _ (take_u64-Ends b.1) (λ _ e. cc e)))

-- A record leaves the position and the ring alone, and does not take back a loss.
abbrev Keeps : PerfEventReader → Drained → Type 0
Keeps r o =
    (o.1.tail ≡ r.tail)
    × (o.1.capacity ≡ r.capacity)
    × (r.lost ≤ o.1.lost)
    × (o.1.lost < u64_count)
    × Ends o.0

module _ (target : Target) (latest : Option RawSample) (r : PerfEventReader)
    (h : r.lost < u64_count) where
  sample_record-Keeps : (bytes : List ℕ) → Keeps r (sample_record target bytes latest r)
  unfolding sample_record
  sample_record-Keeps bytes = elim (Result-cases (parse_perf_sample target bytes)) [
    | inl (failure, e) ↦
        rw (sample_record, e)
          (refl, refl, omega arith, h, λ f. parse_perf_sample-Ends target bytes (cc (e, f)))
    | inr (sample, e) ↦
        rw (sample_record, e)
          (if_both (Keeps r) r.context_switch (refl, refl, omega arith, h, λ f. cc f)
            (option_split (Keeps r) sample _ _ (λ _. (refl, refl, omega arith, h, λ f. cc f))
              (λ s _. (refl, refl, omega arith, h, λ f. cc f))))
  ]

  switch_record-Keeps : (misc : ℕ) (bytes : List ℕ) → Keeps r (switch_record misc bytes latest r)
  unfolding switch_record
  switch_record-Keeps misc bytes = elim (Result-cases (switch_trailer bytes)) [
    | inl (failure, e) ↦
        rw (switch_record, e)
          (refl, refl, omega arith, h, λ f. switch_trailer-Ends bytes (cc (e, f)))
    | inr (trailer, e) ↦ rw (switch_record, e) (refl, refl, omega arith, h, λ f. cc f)
  ]

  lost_record-Keeps : (bytes : List ℕ) → Keeps r (lost_record bytes latest r)
  unfolding lost_record
  lost_record-Keeps bytes =
      let counted : Reading (ℕ × List ℕ) = (do (id, rest) ← take_u64 bytes; take_u64 rest) in
      let ends = bind-Ends (take_u64 bytes) _ (take_u64-Ends bytes) (λ a. take_u64-Ends a.1) in
      elim (Result-cases counted) [
        | inl (failure, e) ↦ rw (lost_record, e) (refl, refl, omega arith, h, λ f. ends (cc (e, f)))
        | inr (count, e) ↦ rw (lost_record, e) (refl, refl, omega arith, omega arith, λ f. cc f)
      ]

  handle_record-Keeps :
      (kind misc : ℕ) (bytes : List ℕ) → Keeps r (handle_record target kind misc bytes latest r)
  unfolding handle_record
  handle_record-Keeps kind misc bytes = if_both (Keeps r) (kind == 9) (sample_record-Keeps bytes) (
      if_both (Keeps r) (kind == 14 && r.context_switch) (switch_record-Keeps misc bytes) (
        if_both (Keeps r) ((kind == 5 || kind == 6) && r.context_switch)
          (refl, refl, omega arith, h, λ f. cc f)
          (if_both (Keeps r) (kind == 2) (lost_record-Keeps bytes)
            (refl, refl, omega arith, h, λ f. cc f))))

-- A loop that has ended at the head or with an error of the program, and lost nothing that was counted.
abbrev AtHead : ℕ → Drained → Type 0
AtHead head (ok latest, r) = r.tail ≡ head
AtHead head (err e, r) = Unit

abbrev HasEnded : ℕ → ℕ → Drained → Type 0
HasEnded head lost o = AtHead head o × Ends o.0 × (lost ≤ o.1.lost) × (o.1.lost < u64_count)

next_record-HasEnded :
    (head : ℕ) (moved : PerfEventReader) (o : Drained)
    (next : Option RawSample → PerfEventReader → Drained)
    → Keeps moved o
    → ((later : Option RawSample) (r : PerfEventReader)
        → Keeps moved (ok later, r)
        → HasEnded head r.lost (next later r))
    → HasEnded head moved.lost (next_record o next)
next_record-HasEnded head moved (err e, r) next (t, c, l, u, f) more = (tt, f, l, u)
next_record-HasEnded head moved (ok later, r) next k more =
    let (a, f, l, u) = more later r k in (a, f, omega (arith, k.2), u)

drain_records-HasEnded :
    (target : Target) (rounds head : ℕ) (latest : Option RawSample) (r : PerfEventReader)
    → r.tail < u64_count
    → head < u64_count
    → r.lost < u64_count
    → wrapping_sub head r.tail < rounds
    → HasEnded head r.lost (drain_records target rounds head latest r)
unfolding drain_records
drain_records-HasEnded target zero head latest r ht hh hl enough = absurd (omega arith)
drain_records-HasEnded target (suc rounds) head latest r ht hh hl enough =
    let header = copy r r.tail header_size in
    let kind = from_ne_bytes (take 4 header) in
    let misc = from_ne_bytes (take 2 (drop 4 header)) in
    let size = from_ne_bytes (drop 6 header) in
    let left = wrapping_sub head r.tail in
    let bytes = copy r (wrapping_add r.tail header_size) (size - header_size) in
    let moved = record r { tail = wrapping_add r.tail size } in
    let P = HasEnded head r.lost in
    if_split P (r.tail == head) (λ same. (ground arith, (λ e. cc e), omega arith, hl))
      (λ more.
        if_split P (ltb left header_size) (λ _. (tt, (λ e. cc e), omega arith, hl))
          (λ long.
            if_split P (not (leb header_size size && leb size r.capacity && leb size left))
              (λ _. (tt, (λ e. cc e), omega arith, hl))
              (λ fits.
                let low : 8 ≤ size = ground arith in
                let high : size ≤ left = ground arith in
                next_record-HasEnded head moved (handle_record target kind misc bytes latest moved)
                  (λ later after. drain_records target rounds head later after)
                  (handle_record-Keeps target latest moved hl kind misc bytes)
                  (λ later after k.
                    let at_ : after.tail ≡ wrapping_add r.tail size = k.0 in
                    drain_records-HasEnded target rounds head later after (omega (arith, at_)) hh
                      k.3 (omega (arith, at_, low, high, enough, ht, hh))))))

-- What `drain` leaves behind, whatever the ring holds: it has ended, the tail is the head, so the kernel
-- gets the room back; no loss is taken back, and an error is counted and drops the pending sample.
abbrev pub IsDrained : ℕ → PerfEventReader → Drained → Type 0
IsDrained head before (ok latest, after) =
    (after.tail ≡ head) × (before.lost ≤ after.lost) × (after.lost < u64_count)
IsDrained head before (err e, after) =
    (e ≢ out_of_rounds)
    × (after.tail ≡ head)
    × (min (before.lost + 1) (u64_count - 1) ≤ after.lost)
    × (after.lost < u64_count)
    × (after.pending ≡ none)

resync-IsDrained :
    (head : ℕ) (before : PerfEventReader) (o : Drained)
    → before.lost < u64_count
    → HasEnded head before.lost o
    → IsDrained head before (resync head o)
unfolding resync
resync-IsDrained head before (ok latest, after) h (a, f, l, u) = (a, l, u)
resync-IsDrained head before (err e, after) h (a, f, l, u) =
    ((λ x. f (ap err x)), refl, omega arith, omega arith, refl)

-- Whatever the kernel has written, `drain` ends and leaves the tail at the head; no loss is taken back,
-- and an error is counted and drops the pending sample. (The positions are u64, and so is the count.)
pub drain-IsDrained :
    (target : Target) (head : ℕ) (r : PerfEventReader)
    → head < u64_count
    → r.tail < u64_count
    → r.lost < u64_count
    → IsDrained head r (drain target head r)
unfolding drain
drain-IsDrained target head r hh ht hl = resync-IsDrained head r _ hl (
    if_split (HasEnded head r.lost) (not (leb (wrapping_sub head r.tail) r.capacity))
      (λ _. (tt, (λ e. cc e), omega arith, hl))
      (λ fits. drain_records-HasEnded target (suc r.capacity) head none r ht hh hl (ground arith)))
