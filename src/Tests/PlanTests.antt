-- ===== src/Tests/PlanTests.antt =====
-- Chunks, plans, cursors and dispatches at concrete inputs.
use praelector.Base.{◌≤◌, ◌≡◌, refl, sym, false, List, [], ◌∷◌, length, arith, append-nil, All}
use praelector.Base.Text.{Text, strip, codes}
use praelector.Domain.Hashing.{Digest}
use praelector.Domain.Json.{end}
use praelector.Jobs.Admission.{AdmissionGate}
use praelector.Jobs.Chunker.{PlanItem, split_oversized, pieces}
use praelector.Jobs.Chunker.Fit.{Fits, pieces-Fits}
use praelector.Jobs.Chunker.Fuel.{split_or, split_oversized-fuel}
use praelector.Jobs.Chunker.Chunking.{Spaced, IsChunking, pieces-IsChunking}
use praelector.Jobs.Cursor.{cursor_after}
use praelector.Jobs.Cursor.Laws.{IsCursor, cursor_after-IsCursor}
use praelector.Jobs.Plan.{Backend, plan_from, plan_runs}
use praelector.Jobs.Plan.Order.{Counts, IsChunk, plan_runs-laws}
use praelector.Jobs.Scheduler.{dispatch}
use praelector.Jobs.Scheduler.Prefix.{needed, IsDispatch, dispatch-IsDispatch}
use praelector.Tests.Samples.{three_items, run_of, open_tick}

-- A segmenter that takes a text for one sentence.
abbrev whole : Text → List Text
whole t = t ∷ []

whole-Spaced : (t : Text) → Spaced t (whole t)
whole-Spaced t = Spaced.next [] t [] (sym (append-nil t)) tt (Spaced.end tt)

pieces-IsChunking_example :
    IsChunking 8
      (strip (codes "Tak, ale nie teraz."))
      (pieces whole (run_of "Tak, ale nie teraz.") 8)
pieces-IsChunking_example = pieces-IsChunking whole (run_of "Tak, ale nie teraz.") 8 whole-Spaced

pieces-Fits_example : All (Fits 8) (pieces whole (run_of "Tak, ale nie teraz.") 8)
pieces-Fits_example = pieces-Fits whole (run_of "Tak, ale nie teraz.") 8

split_oversized-fuel_example :
    split_oversized 9 4 (codes "raz, dwa") ≡ split_or (λ t. t ∷ t ∷ []) 30 4 (codes "raz, dwa")
split_oversized-fuel_example =
    split_oversized-fuel (λ t. t ∷ t ∷ []) 9 30 4 (codes "raz, dwa") (omega arith) (omega arith)

abbrev digest : Digest
digest = record {
  blake2s = λ b. b;
  hex = λ b. "00";
  nfc = λ t. t;
  encode = λ t. t;
  canonical = λ f. [];
}

abbrev backend : Backend
backend = record {
  backend_id = codes "omnivoice";
  adapter_version = codes "1";
  model_revision = codes "main";
  params = end;
}

abbrev plan : List PlanItem
plan = plan_from digest backend whole 8 0 (run_of "Tak, ale nie teraz." ∷ [])

plan_runs-laws_example : Counts 0 plan × All (IsChunk 8) plan
unfolding plan_runs
plan_runs-laws_example =
    plan_runs-laws digest backend whole 8 (run_of "Tak, ale nie teraz." ∷ []) plan refl

cursor_after-IsCursor_example :
    IsCursor (cursor_after three_items (0 ∷ [])) (0 ∷ []) three_items
    × (cursor_after three_items (0 ∷ []) ≤ length three_items)
cursor_after-IsCursor_example =
    cursor_after-IsCursor three_items (0 ∷ []) (refl, (refl, (refl, tt)))

abbrev one_slot : AdmissionGate
one_slot = record { slots = 1; held = 0 }

dispatch-IsDispatch_example :
    IsDispatch open_tick
      (needed (λ x. false) 0 three_items)
      (dispatch (λ x. false) open_tick three_items 0 one_slot).0
      one_slot
      (dispatch (λ x. false) open_tick three_items 0 one_slot).1
dispatch-IsDispatch_example = dispatch-IsDispatch (λ x. false) open_tick three_items 0 one_slot
