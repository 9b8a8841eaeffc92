-- ===== src/Storage/Projection/View.antt =====
-- packages/storage-sqlite/src/work-item-projection.ts: the work item that a base and its actions
-- stand for, and that a rebuilt work item is it.
use twindesk.Prelude.{
  ◌≡◌, refl, sym, ap, ◌∙◌, Option, none, some, List, [], ◌∷◌, String, arith, if◌then◌else◌, ◌==◌,
  string_eq,
}
use twindesk.Result.{Thrown, ok, >>=-eq-ok}
use twindesk.Domain.Records.{WorkItem, WorkItemUserAction}
use twindesk.Domain.Parsers.{parse_work_item, parse_work_item_user_action}
use twindesk.Storage.Table.{key-find, map_some, find-upsert}
use twindesk.Storage.Database.{Database}
use twindesk.Storage.DraftAction.Rows.{or_throw}
use twindesk.Storage.Projection.Rows.{
  base_row, current_row, read_base, parse_stored_work_item, actions_of,
  read_work_item_actions_in_snapshot, parse_each, parse_stored_action,
}
use twindesk.Storage.Projection.Materialize.{
  apply_action, apply_actions, materialize_work_item, write_current_projection,
  rebuild_in_transaction,
}

-- The work item that a base and its stored actions make.
unfoldable pub view_of : List WorkItemUserAction → WorkItem → WorkItem
unfolding apply_actions
view_of actions base = apply_actions base base actions

unfoldable pub view : Database → String → Option WorkItem
unfolding view_of base_row actions_of
view db id = map_some (view_of (actions_of db id)) (base_row db id)

parse_each_actions :
    (rows actions : List WorkItemUserAction)
    → parse_each parse_stored_action rows ≡ ok actions
    → actions ≡ rows
unfolding parse_each parse_stored_action parse_work_item_user_action
parse_each_actions [] actions h = ground arith
parse_each_actions (a ∷ rows) actions h =
    let (first, h₁, h₂) = >>=-eq-ok (parse_stored_action a) _ h in
    let (rest, h₃, h₄) = >>=-eq-ok (parse_each parse_stored_action rows) _ h₂ in
    let ih = parse_each_actions rows rest h₃ in ground arith

apply_action-id : (base w : WorkItem) (a : WorkItemUserAction) → (apply_action base w a).id ≡ w.id
unfolding apply_action
apply_action-id base w a = ground arith

apply_actions-id :
    (base w : WorkItem) (actions : List WorkItemUserAction)
    → (apply_actions base w actions).id ≡ w.id
unfolding apply_actions
apply_actions-id base w [] = refl
apply_actions-id base w (a ∷ actions) =
    apply_actions-id base (apply_action base w a) actions ∙ apply_action-id base w a

read_base_effect :
    (db : Database) (id : String) (base : WorkItem)
    → read_base db id ≡ ok (some base)
    → base_row db id ≡ some base
unfolding read_base parse_stored_work_item parse_work_item
read_base_effect db id base h = ground arith

materialize_work_item_effect :
    (db : Database) (base w : WorkItem)
    → materialize_work_item db base ≡ ok w
    → w ≡ view_of (actions_of db base.id) base
unfolding materialize_work_item read_work_item_actions_in_snapshot parse_work_item view_of
materialize_work_item_effect db base w h =
    let (actions, h₁, h₂) =
      >>=-eq-ok (parse_each parse_stored_action (actions_of db base.id)) _ h in
    let same = parse_each_actions (actions_of db base.id) actions h₁ in ground arith

or_throw_effect {ℓ} :
    {A : Type ℓ} (o : Option A) (e : Thrown) (a : A) → or_throw o e ≡ ok a → o ≡ some a
or_throw_effect none e a h = cc
or_throw_effect (some b) e a h = ground arith

view_at_base :
    (db : Database) (id : String) (base : WorkItem)
    → base_row db id ≡ some base
    → (base.id ≡ id) × (view db id ≡ some (view_of (actions_of db base.id) base))
unfolding view base_row
view_at_base db id base h =
    let same = key-find (λ w. w.id) id db.bases base h in (same, rw h (rw same refl))

-- A rebuilt work item is the view of its base, and the one row that is written.
pub rebuild_in_transaction_effect :
    (db : Database) (id : String) (w : WorkItem) (db' : Database)
    → rebuild_in_transaction db id ≡ ok (w, db')
    → (view db id ≡ some w) × (w.id ≡ id) × (db' ≡ write_current_projection db w)
unfolding rebuild_in_transaction view_of
rebuild_in_transaction_effect db id w db' h =
    let (found, h₁, h₂) = >>=-eq-ok (read_base db id) _ h in
    let (base, h₃, h₄) = >>=-eq-ok (or_throw found _) _ h₂ in
    let (p, h₅, h₆) = >>=-eq-ok (materialize_work_item db base) _ h₄ in
    let is_found = or_throw_effect found _ base h₃ in
    let (same, seen) =
      view_at_base db id base (read_base_effect db id base (rw (sym is_found) h₁)) in
    let made = materialize_work_item_effect db base p h₅ in
    let is_p : w ≡ p = ground arith in
    (
      rw seen (rw (sym made) (ap some (sym is_p))),
      rw is_p (rw made (apply_actions-id base base (actions_of db base.id) ∙ same)),
      ground arith,
    )

-- The rows of work items after the write of one.
pub current_row_written :
    (db : Database) (w : WorkItem) (j : String)
    → current_row (write_current_projection db w) j
      ≡ (if w.id == j then some w else current_row db j)
unfolding current_row write_current_projection
current_row_written db w j = find-upsert (λ r. r.id) j w db.work_items

pub view_of_written :
    (db : Database) (w : WorkItem) (j : String) → view (write_current_projection db w) j ≡ view db j
unfolding view write_current_projection base_row actions_of
view_of_written db w j = refl
