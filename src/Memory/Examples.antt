-- ===== src/Memory/Examples.antt =====
-- Runs of the memory on concrete requests.
use koika.Prelude.{ℕ, ◌^◌, ◌<◌, ◌≡◌, refl, arith, some, none, List, [], ◌∷◌, ◌++◌}
use koika.Memory.{MemReq, MemInput, MemOutput, Bram, merge}
use koika.Memory.Bytes.{byte, source, merge_lem}
use koika.Memory.Queue.{run_memory, serve, accepted, answered, waiting}
use koika.Memory.Queue.Throughput.{Busy, asked, run_memory-keeps_up}
use koika.Memory.Queue.Progress.{run_memory-in_order}

-- The two low bytes of 0xAABBCCDD replaced.
merge_lem_example :
    (w : ℕ) × (merge 3 0x11223344 0xAABBCCDD ≡ some w)
    × (w < 2 ^ 32)
    × ((k : ℕ) → k < 4 → byte k w ≡ byte k (source 3 0x11223344 0xAABBCCDD k))
merge_lem_example = merge_lem 3 0x11223344 0xAABBCCDD (omega arith) (omega arith) (omega arith)

abbrev store_word : MemReq
store_word = record { byte_en = 15; addr = 64; «data» = 7 }

abbrev load_word : MemReq
load_word = record { byte_en = 0; addr = 64; «data» = 0 }

abbrev requests : List MemInput
requests =
    record { get_ready = 0; put_valid = 1; put_request = store_word }
    ∷ record { get_ready = 0; put_valid = 1; put_request = load_word }
    ∷ record { get_ready = 1; put_valid = 1; put_request = load_word }
    ∷ record { get_ready = 1; put_valid = 0; put_request = load_word }
    ∷ []

run_memory-in_order_example :
    (outs : List MemOutput) × (b : Bram) × (done : List MemReq) × (run_memory
        (record { mem = λ i. 0; last = none })
        requests
      ≡ some (outs, b))
    × (accepted requests outs ≡ done ++ waiting b.last)
    × (serve (λ i. 0) done ≡ some (answered outs, b.mem))
run_memory-in_order_example =
    run_memory-in_order (λ i. 0) requests
      (omega arith, (omega arith, (omega arith, (omega arith, tt))))

-- A store and a load of the same word, with answers taken.
abbrev busy_store : MemInput
busy_store = record { get_ready = 1; put_valid = 1; put_request = store_word }

abbrev busy_load : MemInput
busy_load = record { get_ready = 1; put_valid = 1; put_request = load_word }

run_memory-keeps_up_example :
    (outs : List MemOutput) × (b : Bram) × (run_memory
        (record { mem = λ i. 0; last = none })
        (busy_store ∷ busy_load ∷ busy_load ∷ [])
      ≡ some (outs, b))
    × (accepted (busy_store ∷ busy_load ∷ busy_load ∷ []) outs
        ≡ asked (busy_store ∷ busy_load ∷ busy_load ∷ []))
    × (b.last ≡ some load_word)
    × (serve (λ i. 0) (asked (busy_store ∷ busy_load ∷ [])) ≡ some (answered outs, b.mem))
run_memory-keeps_up_example =
    run_memory-keeps_up (λ i. 0) (busy_store ∷ busy_load ∷ []) busy_load
      (storing, (loading, (loading, tt)))
  where
    storing : Busy busy_store
    storing = record { takes = refl; asks = refl; in_range = omega arith }

    loading : Busy busy_load
    loading = record { takes = refl; asks = refl; in_range = omega arith }
