-- ===== src/Deletion/Tests.antt =====
-- Plans over a world that is the list of its files, one of which cannot be deleted.
use backhouse_dff.Base.{
  ◌≡◌, refl, ap, ◌↔◌, map, nat_key, String, true, false, not, Option, none, some, List, [], ◌∷◌,
  if◌then◌else◌, filter, All, any, take, length, ◌==◌, text_key, contains,
}
use backhouse_dff.Safety.Gate.{is_uuid_hex}
use backhouse_dff.Deletion.Adapters.{FileOps, trash, permanent, done, delete}
use backhouse_dff.Deletion.Engine.{
  Progress, PlanPaths, batch, delete_one, delete_from, execute_plan,
}
use backhouse_dff.Deletion.Engine.Account.{permitted, tally_of, attempts, execute_plan-attempts}
use backhouse_dff.Deletion.Engine.Trash.{other, execute_plan-trash}
use backhouse_dff.Deletion.Plan.{
  PathOps, DeletionPlan, ExecutableDeletePlan, or_default, total_bytes, executable, expand,
  build_delete_plan,
}
use backhouse_dff.Deletion.Plan.Checks.{
  IsSafe, asks_for, useful, is_empty, build_delete_plan-IsSafe, build_delete_plan-eq-none_iff,
}
use backhouse_dff.Deletion.Pipeline.{DeletionResult, result, execute_delete_plan}
use backhouse_dff.Deletion.Pipeline.Latch.{execute_delete_plan-eq-none}

abbrev World : Type 0
World = List String

abbrev without : World → String → World × Option String
without w p = if p == "/busy" then (w, some "in use") else (filter (λ q. not (q == p)) w, none)

abbrev files : FileOps World String
files = record {
  exists = contains;
  is_file = λ w p. true;
  stat_size = λ w p. done 5;
  name = λ p. p;
  send2trash_available = true;
  send2trash = without;
  make_trash_dir = λ w. (w, none);
  trash_dest = λ w p. "/trash";
  move = λ w p q. without w p;
  remove = without;
  rmtree = without;
}

abbrev places : PathOps World String
places = record {
  path = λ s. s;
  exists = contains;
  resolve = λ w p. if p == "/link" then some "/a" else some p;
  stat = λ w p. some (5, 1);
}

abbrev world : World
world = "/a" ∷ "/b" ∷ "/busy" ∷ "/link" ∷ []

abbrev request : DeletionPlan
request = record {
  scan_id = "s1";
  mode = "trash";
  token = none;
  groups =
      record { group_index = 0; keep = "/a"; delete = "/b" ∷ "/link" ∷ "/gone" ∷ "/busy" ∷ [] }
      ∷ record { group_index = 1; keep = "/lost"; delete = "/a" ∷ [] }
      ∷ [];
  source = "review_page";
}

abbrev plan : ExecutableDeletePlan String
plan = executable places world request (expand places world request.groups)

-- The keeper's other name, the missing file and the group without a keeper are left out.
plan_built : build_delete_plan places world request ≡ some plan
unfolding build_delete_plan
plan_built = refl

plan_operations : (length plan.operations ≡ 2) × (total_bytes plan ≡ 10)
plan_operations = (refl, refl)

build_delete_plan-IsSafe_example :
    All
      (λ op. IsSafe places world op × (any (asks_for places world op) request.groups ≡ true))
      plan.operations
    × (plan.stats_bytes ≡ total_bytes plan)
build_delete_plan-IsSafe_example = build_delete_plan-IsSafe places world request plan plan_built

abbrev hopeless : DeletionPlan
hopeless = record request {
  groups = record { group_index = 0; keep = "/a"; delete = "/link" ∷ "/gone" ∷ [] } ∷ [];
}

build_delete_plan-eq-none_iff_example :
    (build_delete_plan places world hopeless ≡ none)
    ↔ ((is_empty hopeless.groups ≡ false) × (any (useful places world) hopeless.groups ≡ false))
build_delete_plan-eq-none_iff_example = build_delete_plan-eq-none_iff places world hopeless

hopeless_raises : build_delete_plan places world hopeless ≡ none
hopeless_raises = build_delete_plan-eq-none_iff_example.1 (refl, refl)

abbrev paths : PlanPaths String
paths = record { scan_id = "s1"; mode = "trash"; paths = "/b" ∷ "/busy" ∷ "/gone" ∷ "/a" ∷ [] }

-- A callback that raises at the first operation and stops the run at the fourth.
abbrev three : Progress
three = some (λ i total name. if i == 1 then none else some (not (i == 4)))

three_operations : execute_plan files three permanent paths world ≡ (
  "/a" ∷ "/busy" ∷ "/link" ∷ [],
  record {
    scan_id = "s1";
    mode = "trash";
    deleted = "/b" ∷ [];
    failed = ("/busy", "in use") ∷ ("/gone", "File does not exist") ∷ [];
    bytes_reclaimed = 5;
  },
)
unfolding execute_plan delete_from delete_one delete
three_operations = refl

execute_plan-attempts_example :
    let n = permitted three (λ p. p) 4 0 paths.paths in
    let run = attempts files permanent (take n paths.paths) world in
    (map (λ r. r.path) run.1 ≡ take n paths.paths)
    × (execute_plan files three permanent paths world ≡ batch files paths (run.0, tally_of run.1))
execute_plan-attempts_example = execute_plan-attempts files three permanent paths world

-- Deletions that would do nothing but fail.
abbrev refuse : World → String → World × Option String
refuse w p = (w, some "refused")

execute_plan-trash_example :
    execute_plan (other files refuse refuse) three trash paths world
    ≡ execute_plan files three trash paths world
execute_plan-trash_example = execute_plan-trash files refuse refuse three paths world

abbrev bare : String → String
bare s = s

abbrev keep_world : DeletionResult String → World → World
keep_world res w = w

short_token : is_uuid_hex "abc" ≡ false
unfolding is_uuid_hex
short_token = refl

only_abc : (t : String) → some "abc" ≡ some t → is_uuid_hex (bare t) ≡ false
only_abc t h = rw⁻¹ (ap (or_default "abc") h) short_token

execute_delete_plan-eq-none_example :
    execute_delete_plan 2 100 bare files bare keep_world none
      (record plan { mode = "permanent"; token = some "abc" })
      world
    ≡ (world, none)
execute_delete_plan-eq-none_example =
    execute_delete_plan-eq-none 2 100 bare files bare keep_world none
      (record plan { mode = "permanent"; token = some "abc" }) world refl only_abc

ran :
    (execute_delete_plan 2 100 bare files bare keep_world none plan world).1
    ≡ some (
        result bare plan (record {
          scan_id = "s1";
          mode = "trash";
          deleted = "/b" ∷ [];
          failed = ("/busy", "in use") ∷ [];
          bytes_reclaimed = 5;
        }))
unfolding execute_delete_plan execute_plan delete_from delete_one delete
ran = refl
