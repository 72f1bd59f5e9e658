-- ===== src/Deletion/Adapters.antt =====
-- cerebro/core/deletion.py: the adapters that delete one path. The file system and the libraries
-- that change it are operations on a world `W`, which holds the clock too; `P` is the type of
-- paths. An operation that raises one of the exceptions the code catches leaves a text.
use backhouse_dff.Base.{ℕ, String, Bool, true, false, Option, none, some, if◌then◌else◌}

-- The value of a call, or the text of the exception that it raised.
pub data Attempt {ℓ} (A : Type ℓ) : Type ℓ where
  done : A → Attempt A
  raised : String → Attempt A

pub record FileOps (W P : Type 0) : Type 0 where
  pub exists : W → P → Bool
  pub is_file : W → P → Bool
  -- `path.stat().st_size`
  pub stat_size : W → P → Attempt ℕ
  -- `path.name`
  pub name : P → String
  pub send2trash_available : Bool
  pub send2trash : W → P → W × Option String
  -- `trash_dir.mkdir(parents=True, exist_ok=True)`, and the place in it that the clock gives a
  -- path.
  pub make_trash_dir : W → W × Option String
  pub trash_dest : W → P → P
  -- `shutil.move`, `os.remove`, `shutil.rmtree`
  pub move : W → P → P → W × Option String
  pub remove : W → P → W × Option String
  pub rmtree : W → P → W × Option String

pub data DeletionPolicy : Type 0 where
  trash : DeletionPolicy
  permanent : DeletionPolicy

pub record SingleDeletionResult (P : Type 0) : Type 0 where
  pub success : Bool
  pub path : P
  pub policy : DeletionPolicy
  pub bytes_reclaimed : ℕ
  pub error : Option String

-- The adapters of `DeletionEngine.__init__`.
pub data Adapter : Type 0 where
  trash_adapter : Adapter
  permanent_adapter : Adapter

abbrev pub can_handle : Adapter → DeletionPolicy → Bool
can_handle trash_adapter trash = true
can_handle trash_adapter permanent = false
can_handle permanent_adapter trash = false
can_handle permanent_adapter permanent = true

abbrev pub failed_result : {P : Type 0} → P → DeletionPolicy → String → SingleDeletionResult P
failed_result p policy e = record {
  success = false;
  path = p;
  policy = policy;
  bytes_reclaimed = 0;
  error = some e;
}

-- The result of the last call of the `try` block.
abbrev pub finish :
    {W P : Type 0} → P → DeletionPolicy → ℕ → W × Option String → W × SingleDeletionResult P
finish p policy size (w, none) =
    (w, record { success = true; path = p; policy = policy; bytes_reclaimed = size; error = none })
finish p policy size (w, some e) = (w, failed_result p policy e)

module _ {W P : Type 0} (fs : FileOps W P) where
  -- `path.stat().st_size if path.is_file() else 0`
  abbrev pub measure : W → P → Attempt ℕ
  measure w p = if fs.is_file w p then fs.stat_size w p else done 0

  abbrev pub move_to_dest : P → W × Option String → W × Option String
  move_to_dest p (w, none) = fs.move w p (fs.trash_dest w p)
  move_to_dest p (w, some e) = (w, some e)

  abbrev pub move_to_trash : W → P → W × Option String
  move_to_trash w p =
      if fs.send2trash_available then fs.send2trash w p else move_to_dest p (fs.make_trash_dir w)

  abbrev pub trash_measured : W → P → DeletionPolicy → Attempt ℕ → W × SingleDeletionResult P
  trash_measured w p policy (done size) = finish p policy size (move_to_trash w p)
  trash_measured w p policy (raised e) = (w, failed_result p policy e)

  abbrev pub remove_or_rmtree : W → P → W × Option String
  remove_or_rmtree w p = if fs.is_file w p then fs.remove w p else fs.rmtree w p

  abbrev pub remove_measured : W → P → DeletionPolicy → Attempt ℕ → W × SingleDeletionResult P
  remove_measured w p policy (done size) = finish p policy size (remove_or_rmtree w p)
  remove_measured w p policy (raised e) = (w, failed_result p policy e)

  unfoldable pub delete : Adapter → W → P → DeletionPolicy → W × SingleDeletionResult P
  delete trash_adapter w p policy =
      if fs.exists w p
      then trash_measured w p policy (measure w p)
      else (w, failed_result p policy "File does not exist")
  delete permanent_adapter w p policy =
      if fs.exists w p
      then remove_measured w p policy (measure w p)
      else (w, failed_result p policy "File does not exist")
