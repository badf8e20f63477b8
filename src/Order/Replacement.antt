-- ===== src/Order/Replacement.antt =====
-- What a replaced order and the order that replaces it are.
use crocofix.Base.{◌≡◌, ◌≢◌, refl, subst, [], ◌∷◌, ◌++◌, Option}
use crocofix.Base.Exec.{Error, Result, ok, err}
use crocofix.Field.{Field}
use crocofix.Message.{Message}
use crocofix.Order.{Order, create_key, update, replace, replacement_of, replaced, replace_with}

-- The key of an order is made of its own identifiers.
abbrev HasOwnKey : Order → Type 0
HasOwnKey r = r.key ≡ create_key r.sender_comp_id r.target_comp_id r.cl_ord_id.value

err≢ok : {e : Error} {r : Order} → err e ≢ ok r
err≢ok h = cc

ok-injective : {a b : Order} → ok a ≡ ok b → a ≡ b
ok-injective h = cc

replacement_of-key :
    (requested : Option Field) (m : Message) (o : Order) → HasOwnKey (replacement_of requested m o)
unfolding replacement_of
replacement_of-key requested m o = refl

-- If an execution report replaces an order, the new order has the key that its own identifiers make, and
-- the old one keeps its key and remembers the report behind the messages that it had.
pub replace-HasOwnKey :
    (m : Message) (o r : Order)
    → (replace m o).0 ≡ ok r
    → (r.key ≡ create_key r.sender_comp_id r.target_comp_id r.cl_ord_id.value)
      × ((replace m o).1.key ≡ o.key)
      × ((replace m o).1.messages ≡ o.messages ++ m ∷ [])
unfolding replace replaced
replace-HasOwnKey m o r h = by_update (update m o) h
  where
    by_update :
        (x : Result Unit × Order)
        → (replace_with m o x).0 ≡ ok r
        → (r.key ≡ create_key r.sender_comp_id r.target_comp_id r.cl_ord_id.value)
          × ((replace_with m o x).1.key ≡ o.key)
          × ((replace_with m o x).1.messages ≡ o.messages ++ m ∷ [])
    by_update (err e, p) q = absurd (err≢ok q)
    by_update (ok u, p) q =
        (subst (λ (x : Order). HasOwnKey x) (ok-injective q) (replacement_of-key _ m p), refl, refl)
