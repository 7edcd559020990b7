-- ===== src/Cpu/Accounts.antt =====
-- What the hooks add and what the frames take (plugin/src/samplers/cpu_breakdown.cpp).
use skygraph.Prelude.{
  ℕ, ◌+◌, ◌%◌, ◌^◌, ◌≡◌, refl, ap, ◌∙◌, Bool, List, [], ◌∷◌, ◌==◌, if◌then◌else◌, arith, Bool-cases,
  inl, inr,
}
use skygraph.Cpu.{
  ℤ, pos, negsuc, Accumulators, Counter, papyrus, havok, ai, render_submit, streaming, reading,
  add_us, add_papyrus_us, add_havok_us, add_ai_us, add_render_submit_us, add_streaming_us, exchange,
}

unfoldable pub add_to : Accumulators → Counter → ℤ → Accumulators
unfolding add_papyrus_us add_havok_us add_ai_us add_render_submit_us add_streaming_us
add_to a papyrus us = add_papyrus_us a us
add_to a havok us = add_havok_us a us
add_to a ai us = add_ai_us a us
add_to a render_submit us = add_render_submit_us a us
add_to a streaming us = add_streaming_us a us

-- The steps of the hooks' threads and of the frame thread, in any order.
pub data Step : Type 0 where
  adds : Counter → ℤ → Step
  takes : Counter → Step

abbrev index : Counter → ℕ
index papyrus = 0
index havok = 1
index ai = 2
index render_submit = 3
index streaming = 4

abbrev pub same : Counter → Counter → Bool
same c d = index c == index d

-- What all the exchanges of one counter returned, and the counters afterwards.
unfoldable pub account : Counter → Accumulators → List Step → ℕ × Accumulators
unfolding add_to exchange
account c a [] = (0, a)
account c a (adds d us ∷ ss) = account c (add_to a d us) ss
account c a (takes d ∷ ss) =
    let (n, a') = exchange a d in
    let (m, a'') = account c a' ss in ((if same c d then n else 0) + m, a'')

abbrev positive : ℤ → ℕ
positive (pos us) = us
positive (negsuc us) = 0

-- All that is added to one counter.
abbrev pub added : Counter → List Step → ℕ
added c [] = 0
added c (adds d us ∷ ss) = (if same c d then positive us else 0) + added c ss
added c (takes d ∷ ss) = added c ss

reading-add_to :
    (a : Accumulators) (c d : Counter) (us : ℤ)
    → reading (add_to a d us) c ≡ (if same c d then add_us (reading a c) us else reading a c)
unfolding add_to
reading-add_to a papyrus papyrus us = refl
reading-add_to a papyrus havok us = refl
reading-add_to a papyrus ai us = refl
reading-add_to a papyrus render_submit us = refl
reading-add_to a papyrus streaming us = refl
reading-add_to a havok papyrus us = refl
reading-add_to a havok havok us = refl
reading-add_to a havok ai us = refl
reading-add_to a havok render_submit us = refl
reading-add_to a havok streaming us = refl
reading-add_to a ai papyrus us = refl
reading-add_to a ai havok us = refl
reading-add_to a ai ai us = refl
reading-add_to a ai render_submit us = refl
reading-add_to a ai streaming us = refl
reading-add_to a render_submit papyrus us = refl
reading-add_to a render_submit havok us = refl
reading-add_to a render_submit ai us = refl
reading-add_to a render_submit render_submit us = refl
reading-add_to a render_submit streaming us = refl
reading-add_to a streaming papyrus us = refl
reading-add_to a streaming havok us = refl
reading-add_to a streaming ai us = refl
reading-add_to a streaming render_submit us = refl
reading-add_to a streaming streaming us = refl

reading-exchange :
    (a : Accumulators) (c d : Counter)
    → ((if same c d then (exchange a d).0 else 0) + reading (exchange a d).1 c) ≡ reading a c
unfolding exchange
reading-exchange a papyrus papyrus = omega arith
reading-exchange a papyrus havok = omega arith
reading-exchange a papyrus ai = omega arith
reading-exchange a papyrus render_submit = omega arith
reading-exchange a papyrus streaming = omega arith
reading-exchange a havok papyrus = omega arith
reading-exchange a havok havok = omega arith
reading-exchange a havok ai = omega arith
reading-exchange a havok render_submit = omega arith
reading-exchange a havok streaming = omega arith
reading-exchange a ai papyrus = omega arith
reading-exchange a ai havok = omega arith
reading-exchange a ai ai = omega arith
reading-exchange a ai render_submit = omega arith
reading-exchange a ai streaming = omega arith
reading-exchange a render_submit papyrus = omega arith
reading-exchange a render_submit havok = omega arith
reading-exchange a render_submit ai = omega arith
reading-exchange a render_submit render_submit = omega arith
reading-exchange a render_submit streaming = omega arith
reading-exchange a streaming papyrus = omega arith
reading-exchange a streaming havok = omega arith
reading-exchange a streaming ai = omega arith
reading-exchange a streaming render_submit = omega arith
reading-exchange a streaming streaming = omega arith

add_us_lem : (n : ℕ) (us : ℤ) → add_us n us % 2 ^ 64 ≡ (n + positive us) % 2 ^ 64
unfolding add_us
add_us_lem n (pos us) = ground arith
add_us_lem n (negsuc us) = omega arith

-- Whatever the hooks add (negative times and zeros count as nothing) and however the exchanges of
-- the frames fall between: for each subsystem, what the frames took and what still waits make up
-- what was there and what was added, modulo 2^64.
pub account_lem :
    (c : Counter) (a : Accumulators) (ss : List Step)
    → let (n, a') = account c a ss in
      (n + reading a' c) % 2 ^ 64 ≡ (reading a c + added c ss) % 2 ^ 64
unfolding account
account_lem c a [] = omega arith
account_lem c a (adds d us ∷ ss) = elim (Bool-cases (same c d)) [
  | inl e ↦
      let k : reading (add_to a d us) c ≡ add_us (reading a c) us =
        reading-add_to a c d us ∙ ap (λ b. if b then add_us (reading a c) us else reading a c) e in
      rw e (omega (arith, account_lem c (add_to a d us) ss, k, add_us_lem (reading a c) us))
  | inr e ↦
      let k : reading (add_to a d us) c ≡ reading a c =
        reading-add_to a c d us ∙ ap (λ b. if b then add_us (reading a c) us else reading a c) e in
      rw e (omega (arith, account_lem c (add_to a d us) ss, k))
]
account_lem c a (takes d ∷ ss) =
    omega (arith, account_lem c (exchange a d).1 ss, reading-exchange a c d)
