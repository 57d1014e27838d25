-- ===== src/Dependencies/Checklist.antt =====
-- A checklist that `validate_checklist` accepts: every item has a text as its id and a list of texts as
-- its dependencies. `mutate_checklist` of checklist_io.py, from the read under the lock to the
-- write; the validation of the candidate and the file system are parameters.
use coordinate.Base.{
  String, Bool, true, false, Option, none, some, List, [], ◌∷◌, ◌==◌, string_dec_eq, if◌then◌else◌,
  Result, ok, err,
}
use coordinate.Json.{Fields}
use coordinate.Table.{find?}

pub record Item : Type 0 where
  pub id : String
  pub dependencies : List String
  -- the other keys
  pub fields : Fields

pub record Checklist : Type 0 where
  pub items : List Item
  pub updated_at : String
  pub fields : Fields

-- How the atomic write ends: an `OSError` may come before or after the file was replaced.
pub data WriteOutcome : Type 0 where
  written refused_write unsure_write : WriteOutcome

-- What the process meets under the lock.
pub record Disk : Type 0 where
  -- the file's checklist, if the lock is got and the file is readable and valid
  pub current : Option Checklist
  pub today : String
  pub accepts : Checklist → Bool
  pub write : WriteOutcome

pub data ChecklistError : Type 0 where
  unreadable candidate_refused os_error : ChecklistError

-- The answer of a mutation with the checklist that the file has afterwards.
abbrev pub Answer : Type 0 → Type 0 → Type 0
Answer E A = Result E A × Option Checklist

module _ {E : Type 0} {A : Type 0} (from : ChecklistError → E) where
  abbrev pub commit : Disk → A → Checklist → WriteOutcome → Answer E A
  commit disk a candidate written = (ok a, some candidate)
  commit disk a candidate refused_write = (err (from os_error), disk.current)
  commit disk a candidate unsure_write = (err (from os_error), some candidate)

  -- if not changed: return candidate, False; otherwise the candidate is dated, validated and written.
  abbrev pub finish_mutation : Disk → Result E (Bool × A × Checklist) → Answer E A
  finish_mutation disk (err e) = (err e, disk.current)
  finish_mutation disk (ok (false, a, candidate)) = (ok a, disk.current)
  finish_mutation disk (ok (true, a, candidate)) =
      let dated : Checklist = record candidate { updated_at = disk.today } in
      if disk.accepts dated
      then commit disk a dated disk.write
      else (err (from candidate_refused), disk.current)

  abbrev pub mutate_from :
      Disk → (Checklist → Result E (Bool × A × Checklist)) → Option Checklist → Answer E A
  mutate_from disk callback none = (err (from unreadable), disk.current)
  mutate_from disk callback (some current) = finish_mutation disk (callback current)

  unfoldable pub mutate_checklist :
      Disk → (Checklist → Result E (Bool × A × Checklist)) → Answer E A
  mutate_checklist disk callback = mutate_from disk callback disk.current

abbrev pub is_item : String → Item → Bool
is_item task_id item = item.id == task_id

unfoldable pub find_item : Checklist → String → Option Item
find_item checklist task_id = find? (is_item task_id) checklist.items

-- target["dependencies"] = updated
unfoldable pub set_dependencies : String → List String → List Item → List Item
set_dependencies task_id updated [] = []
set_dependencies task_id updated (item ∷ items) =
    let rest = set_dependencies task_id updated items in
    if is_item task_id item then record item { dependencies = updated } ∷ items else item ∷ rest
