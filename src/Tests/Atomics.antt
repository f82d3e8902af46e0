-- ===== src/Tests/Atomics.antt =====
-- The atomic operations at concrete inputs.
use tiny_base.Base.{◌+◌, ◌/◌, ◌^◌, ◌≡◌, arith, [], ◌∷◌}
use tiny_base.Base.Word.{u16}
use tiny_base.Mem.{Mem}
use tiny_base.Mem.Word.{load_bytes}
use tiny_base.Atomic.Words.{atomic_add_fetch16}
use tiny_base.Atomic.Words.Laws.{atomic_add_fetch16-neighbour}
use tiny_base.Types.FirstBit.{msvc}
use tiny_base.Tests.Data.{place, zeros}

-- A counter at 0xFFFF, and 5 behind it.
abbrev counters : Mem
counters = place 64 (0xFF ∷ 0xFF ∷ 5 ∷ []) zeros

atomic_add_fetch16-neighbour_example :
    ((atomic_add_fetch16 msvc counters 64 1).0 ≡ u16 (load_bytes counters 64 2 + 1))
    × (load_bytes (atomic_add_fetch16 msvc counters 64 1).1 64 2
        ≡ u16 (load_bytes counters 64 2 + 1))
    × (load_bytes (atomic_add_fetch16 msvc counters 64 1).1 66 2
        ≡ u16 (load_bytes counters 66 2 + (load_bytes counters 64 2 + 1) / 2 ^ 16 + 0))
atomic_add_fetch16-neighbour_example =
    atomic_add_fetch16-neighbour msvc counters 64 1 (λ x. ground arith) (omega arith)
