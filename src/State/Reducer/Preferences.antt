-- ===== src/State/Reducer/Preferences.antt =====
-- `WorkspaceUiPreferencesChanged`: what the merged preferences hold.
use backhouse_dff.Base.{
  ◌≡◌, refl, String, [], ◌∷◌, Option, none, some, arith, text_key, if◌then◌else◌, Bool-cases, ◌==◌,
  Distinct, inl, inr,
}
use backhouse_dff.Base.Dict.{
  lookup, insert, erase, keys, lookup-insert, lookup-erase, lookup-eq-none,
}
use backhouse_dff.Base.Value.{Value, is_none}
use backhouse_dff.State.Action.{Action}
use backhouse_dff.State.Model.{AppState, ValueDict}
use backhouse_dff.State.Reducer.{reduce, merge_ui}

-- The entry of a key: as the patch says where it has the key, and as before otherwise.
abbrev pub patched : Option Value → Option Value → Option Value
patched none old = old
patched (some value) old = if is_none value then none else some value

merge_step : ValueDict → String → Value → ValueDict
merge_step ui key value = if is_none value then erase key ui else insert key value ui

lookup-merge_step :
    (k key : String) (value : Value) (ui : ValueDict)
    → lookup k (merge_step ui key value)
      ≡ (if key == k then patched (some value) none else lookup k ui)
unfolding merge_step
lookup-merge_step k key value ui = elim (Bool-cases (is_none value)) [
  | inl e ↦ rw e (lookup-erase key k ui)
  | inr e ↦ rw e (lookup-insert key k value ui)
]

lookup-merge_ui :
    (k : String) (ui patch : ValueDict)
    → Distinct (keys patch)
    → lookup k (merge_ui ui patch) ≡ patched (lookup k patch) (lookup k ui)
unfolding merge_ui lookup merge_step
lookup-merge_ui k ui [] h = refl
lookup-merge_ui k ui ((key, value) ∷ patch) h = ground (
  arith,
  lookup-merge_ui k (merge_step ui key value) patch h.1,
  lookup-merge_step k key value ui,
  text_key.eqb_iff key k,
  lookup-eq-none key patch h.0,
)

-- After `WorkspaceUiPreferencesChanged` every key of the preferences has the value that the patch
-- gives it, no entry where the patch gives `None`, and its old entry where the patch has no such
-- key. A patch is a dict, so its keys are distinct.
pub reduce-preferences :
    (norm : String → String) (s : AppState) (patch : ValueDict) (k : String) {t : AppState}
    → Distinct (keys patch)
    → reduce norm s (Action.workspace_ui_preferences_changed patch) ≡ some t
    → lookup k t.ui ≡ patched (lookup k patch) (lookup k s.ui)
unfolding reduce lookup
reduce-preferences norm s [] k h e = ground arith
reduce-preferences norm s (x ∷ patch) k h e = ground (arith, lookup-merge_ui k s.ui (x ∷ patch) h)
