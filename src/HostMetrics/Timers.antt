-- ===== src/HostMetrics/Timers.antt =====
-- Every response is counted once.
use conjure_rust_runtime.Prelude.{
  ℕ, suc, ◌+◌, ◌≡◌, refl, Bool-cases, List, [], ◌∷◌, length, ◌==◌, ◌||◌, if◌then◌else◌, arith, inl,
  inr,
}
use conjure_rust_runtime.Errors.{Duration}
use conjure_rust_runtime.HostMetrics.{HostMetrics, update, update_io_error, between}

-- The responses in all timers.
abbrev pub responses : HostMetrics → ℕ
responses m =
    length m.response_1xx
    + length m.response_2xx
    + length m.response_3xx
    + length m.response_4xx
    + length m.response_5xx
    + length m.response_qos
    + length m.response_other

pub data Event : Type 0 where
  responds : ℕ → ℕ → Duration → Event
  fails : ℕ → Event

abbrev pub run : HostMetrics → List Event → HostMetrics
run m [] = m
run m (responds now status d ∷ es) = run (update m now status d) es
run m (fails now ∷ es) = run (update_io_error m now) es

abbrev pub answered : List Event → ℕ
answered [] = 0
answered (responds now status d ∷ es) = suc (answered es)
answered (fails now ∷ es) = answered es

abbrev pub qos : List Event → ℕ
qos [] = 0
qos (responds now status d ∷ es) = (if status == 429 || status == 503 then 1 else 0) + qos es
qos (fails now ∷ es) = qos es

abbrev pub failures : List Event → ℕ
failures [] = 0
failures (responds now status d ∷ es) = failures es
failures (fails now ∷ es) = suc (failures es)

update_counts :
    (m : HostMetrics) (now status : ℕ) (d : Duration)
    → (responses (update m now status d) ≡ suc (responses m))
      × (length (update m now status d).response_qos
          ≡ (if status == 429 || status == 503 then 1 else 0) + length m.response_qos)
      × ((update m now status d).io_error ≡ m.io_error)
unfolding update
update_counts m now status d = elim (Bool-cases (status == 429 || status == 503)) [
  | inl e ↦ rw e (omega arith, omega arith, refl)
  | inr e ↦ elim (Bool-cases (between 100 199 status)) [
    | inl a ↦ rw (e, a) (omega arith, omega arith, refl)
    | inr a ↦ elim (Bool-cases (between 200 299 status)) [
      | inl b ↦ rw (e, a, b) (omega arith, omega arith, refl)
      | inr b ↦ elim (Bool-cases (between 300 399 status)) [
        | inl c ↦ rw (e, a, b, c) (omega arith, omega arith, refl)
        | inr c ↦ elim (Bool-cases (between 400 499 status)) [
          | inl f ↦ rw (e, a, b, c, f) (omega arith, omega arith, refl)
          | inr f ↦ elim (Bool-cases (between 500 599 status)) [
            | inl g ↦ rw (e, a, b, c, f, g) (omega arith, omega arith, refl)
            | inr g ↦ rw (e, a, b, c, f, g) (omega arith, omega arith, refl)
          ]
        ]
      ]
    ]
  ]
]

-- After any responses and failures, the timers hold one entry for each response, the QoS timer one for
-- each 429 and 503, and the meter one mark for each failure.
pub run-counts :
    (m : HostMetrics) (es : List Event)
    → (responses (run m es) ≡ answered es + responses m)
      × (length (run m es).response_qos ≡ qos es + length m.response_qos)
      × ((run m es).io_error ≡ failures es + m.io_error)
unfolding update_io_error
run-counts m [] = (omega arith, omega arith, omega arith)
run-counts m (responds now status d ∷ es) =
    let (a, b, c) = run-counts (update m now status d) es in
    let (x, y, z) = update_counts m now status d in
    (omega (arith, a, x), omega (arith, b, y), omega (arith, c, z))
run-counts m (fails now ∷ es) =
    let (a, b, c) = run-counts (update_io_error m now) es in
    (omega (arith, a), omega (arith, b), omega (arith, c))
