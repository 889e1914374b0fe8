-- ===== src/Tests/ChunksTests.antt =====
-- Publishing a chunk at concrete inputs.
use praelector.Base.{ℕ, refl, none, some, str_eq, if◌then◌else◌}
use praelector.Domain.Json.{end}
use praelector.Jobs.Chunks.{File, Disk, commit_chunk}
use praelector.Jobs.Chunks.Reused.{Committed, commit_chunk-Committed}

abbrev rendered : File
rendered = record { size = 44144; json = none }

abbrev half_done : Disk
half_done path = if str_eq path "a.part" then some rendered else none

-- Every file lasts for one second.
abbrev one_second : File → ℕ
one_second file = 0x3ff0000000000000

commit_chunk-Committed_example :
    Committed one_second
      (λ fs. 40)
      "a.part"
      "a.wav"
      "a.json"
      half_done
      (commit_chunk one_second
        (λ fs. 40)
        "a.part"
        "a.wav"
        "a.json"
        0x3ff0000000000000
        end
        half_done)
commit_chunk-Committed_example =
    commit_chunk-Committed one_second (λ fs. 40) "a.part" "a.wav" "a.json" refl refl refl refl
      0x3ff0000000000000 end half_done
