-- ===== src/Cpu/Tests.antt =====
-- The theorems on the accumulators and the clocks at concrete values.
use skygraph.Prelude.{◌+◌, ◌%◌, ◌^◌, ◌≡◌, List, [], ◌∷◌}
use skygraph.Cpu.{pos, negsuc, Accumulators, papyrus, havok, reading}
use skygraph.Cpu.Accounts.{Step, adds, takes, account, added, account_lem}

abbrev quiet : Accumulators
quiet = record { papyrus_us = 5; havok_us = 0; ai_us = 0; render_submit_us = 0; streaming_us = 0 }

abbrev steps : List Step
steps =
    adds papyrus (pos 7)
    ∷ takes papyrus
    ∷ adds havok (pos 3)
    ∷ adds papyrus (negsuc 4)
    ∷ adds papyrus (pos 2)
    ∷ []

account_lem_example :
    let (n, a') = account papyrus quiet steps in
    (n + reading a' papyrus) % 2 ^ 64 ≡ (reading quiet papyrus + added papyrus steps) % 2 ^ 64
account_lem_example = account_lem papyrus quiet steps

-- a machine that has been on for twelve days
