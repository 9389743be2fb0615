-- ===== src/Keys.antt =====
-- The composite keys of the tables: `"{workflow}/{instance}"` and `"{workflow}/{instance}/{step}"`.
use memable.Prelude.{◌≡◌, false, ◌++◌, ◌∷◌, some}
use memable.Text.{Text, slash, contains, split_once}
use memable.Text.Split.{split_once-append}

unfoldable pub meta_key : Text → Text → Text
meta_key workflow_name instance_id = workflow_name ++ slash ∷ instance_id

unfoldable pub composite_key : Text → Text → Text → Text
composite_key workflow_name instance_id key = workflow_name ++ slash ∷ (instance_id ++ slash ∷ key)

-- Two instances whose workflow names have no separator and whose metadata keys are the same are the
-- same instance.
pub meta_key-injective :
    (v w i j : Text)
    → contains v slash ≡ false
    → contains w slash ≡ false
    → meta_key v i ≡ meta_key w j
    → (v ≡ w) × (i ≡ j)
unfolding meta_key
meta_key-injective v w i j hv hw e =
    let p : split_once (w ++ slash ∷ j) slash ≡ some (v, i) =
      rw (← e) (split_once-append v i slash hv) in
    let q = split_once-append w j slash hw in (cc (p, q), cc (p, q))
