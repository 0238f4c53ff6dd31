-- ===== src/Chain/Target/Examples.antt =====
-- The target of the genesis block and a retarget, for core/target.go.
use yoin.Base.{zero, ◌+◌, ◌*◌, ◌^◌, ◌≡◌, ◌≤◌, ◌<◌, ◌↔◌, refl, none, replicate, arith, ◌++◌}
use yoin.Bytes.{le_value}
use yoin.Chain.Target.{pos, set_compact, get_compact, check_proof_of_work, actual_timespan, scale}
use yoin.Chain.Target.Compact.{get_compact-set_compact}
use yoin.Chain.Target.Work.{target_of, check_proof_of_work_iff}

get_compact-set_compact_example :
    get_compact (set_compact (0x1d * 2 ^ 24 + 0xffff)) ≡ 0x1d * 2 ^ 24 + 0xffff
get_compact-set_compact_example =
    get_compact-set_compact 0x1d 0xffff (omega arith) (omega arith) (omega arith) (omega arith)
      (omega arith)

check_proof_of_work_iff_example :
    (check_proof_of_work (replicate 28 9 ++ replicate 4 0) (0x1d * 2 ^ 24 + (0 * 2 ^ 23 + 0xffff))
      ≡ none)
    ↔ ((zero ≡ zero)
        × (0 < target_of 0x1d 0xffff)
        × (target_of 0x1d 0xffff < 2 ^ 224)
        × (le_value (replicate 28 9 ++ replicate 4 0) ≤ target_of 0x1d 0xffff))
check_proof_of_work_iff_example =
    check_proof_of_work_iff 0x1d 0 0xffff (omega arith) (omega arith)
      (replicate 28 9 ++ replicate 4 0)

half : scale (pos 1000) (actual_timespan 1604800 1000000) ≡ pos 500
unfolding scale actual_timespan
half = refl
