-- ===== src/Storage/Approval/Grows.antt =====
-- How an approval may change: its request never does, its decision only while it is pending, and its
-- consumption never once it is there.

use mathlib.Core.Path.{subst}
use twindesk.Prelude.{
  ◌⊎◌, inl, inr, String_discrete, ◌≡◌, refl, ap, ◌∙◌, Bool, true, Option, none, some, List, String,
  arith, string_eq, option_eq,
}
use twindesk.Result.{ok}
use twindesk.Domain.Model.{ApprovalDecision, ApprovalRecord, approval_decision_eq}
use twindesk.Storage.Table.{find, insert, update_one, find-update}

pub record Advances (a b : ApprovalRecord) : Type 0 where
  pub id : b.id ≡ a.id
  pub proposal_id : b.proposal_id ≡ a.proposal_id
  pub identity_digest : b.identity_digest ≡ a.identity_digest
  pub target_digest : b.target_digest ≡ a.target_digest
  pub content_digest : b.content_digest ≡ a.content_digest
  pub requested_at : b.requested_at ≡ a.requested_at
  pub expires_at : b.expires_at ≡ a.expires_at
  pub decided :
      (a.decision ≡ ApprovalDecision.pending)
      ⊎ ((b.decision ≡ a.decision)
          × (b.decided_at ≡ a.decided_at)
          × (b.responder_user_id ≡ a.responder_user_id))
  pub consumed : (a.consumed_at ≡ none) ⊎ (b.consumed_at ≡ a.consumed_at)

-- A stored approval stays stored.
abbrev pub Grows : Option ApprovalRecord → Option ApprovalRecord → Type 0
Grows none b = Unit {0}
Grows (some a) none = ⊥
Grows (some a) (some b) = Advances a b

pub Advances-refl : (a : ApprovalRecord) → Advances a a
Advances-refl a = record {
  id = refl;
  proposal_id = refl;
  identity_digest = refl;
  target_digest = refl;
  content_digest = refl;
  requested_at = refl;
  expires_at = refl;
  decided = inr (refl, refl, refl);
  consumed = inr refl;
}

pub Grows-refl : (x : Option ApprovalRecord) → Grows x x
Grows-refl none = tt
Grows-refl (some a) = Advances-refl a

Advances-trans : (a b c : ApprovalRecord) → Advances a b → Advances b c → Advances a c
Advances-trans a b c f g = record {
  id = g.id ∙ f.id;
  proposal_id = g.proposal_id ∙ f.proposal_id;
  identity_digest = g.identity_digest ∙ f.identity_digest;
  target_digest = g.target_digest ∙ f.target_digest;
  content_digest = g.content_digest ∙ f.content_digest;
  requested_at = g.requested_at ∙ f.requested_at;
  expires_at = g.expires_at ∙ f.expires_at;
  decided = ground (arith, f.decided, g.decided);
  consumed = ground (arith, f.consumed, g.consumed);
}

pub Grows-trans : (x y z : Option ApprovalRecord) → Grows x y → Grows y z → Grows x z
Grows-trans none y z f g = tt
Grows-trans (some a) none z f g = absurd f
Grows-trans (some a) (some b) none f g = absurd g
Grows-trans (some a) (some b) (some c) f g = Advances-trans a b c f g

abbrev find_approval : String → List ApprovalRecord → Option ApprovalRecord
find_approval = find (λ a. a.id)

same-Grows : (x y : Option ApprovalRecord) → (x ≡ none) ⊎ (y ≡ x) → Grows x y
same-Grows none y h = tt
same-Grows (some a) y (inl e) = cc
same-Grows (some a) y (inr e) = rw e (Advances-refl a)

same_or_new :
    (a : ApprovalRecord) (rows : List ApprovalRecord) (j : String) {rows' : List ApprovalRecord}
    → insert (λ row. row.id) a rows ≡ ok rows'
    → (find_approval j rows ≡ none) ⊎ (find_approval j rows' ≡ find_approval j rows)
unfolding insert find
same_or_new a rows j h = elim (String_discrete a.id j) [
  | yes here ↦ inl (subst (λ i. find_approval i rows ≡ none) here (ground arith))
  | no there ↦ inr (ground arith)
]

updated_or_same :
    (k : String) (p : ApprovalRecord → Bool) (f : ApprovalRecord → ApprovalRecord)
    (rows : List ApprovalRecord) (j : String) {rows' : List ApprovalRecord}
    → ((r : ApprovalRecord) → (f r).id ≡ r.id)
    → update_one (λ row. row.id) k p f rows ≡ some rows'
    → (r : ApprovalRecord) × (find_approval k rows ≡ some r)
      × (p r ≡ true)
      × ((find_approval j rows' ≡ find_approval j rows)
          ⊎ ((find_approval j rows ≡ some r) × (find_approval j rows' ≡ some (f r))))
unfolding update_one
updated_or_same k p f rows j keeps h = elim (String_discrete k j) [
  | yes here ↦
      (let same = ap (λ i. find_approval i rows) here in
        ground (arith, find-update (λ a. a.id) k j f keeps rows))
  | no there ↦ ground (arith, find-update (λ a. a.id) k j f keeps rows)
]

pub insert-Grows :
    (a : ApprovalRecord) (rows : List ApprovalRecord) (j : String) {rows' : List ApprovalRecord}
    → insert (λ row. row.id) a rows ≡ ok rows'
    → Grows (find_approval j rows) (find_approval j rows')
insert-Grows a rows j h = same-Grows _ _ (same_or_new a rows j h)

pub update_one-Grows :
    (k : String) (p : ApprovalRecord → Bool) (f : ApprovalRecord → ApprovalRecord)
    (rows : List ApprovalRecord) (j : String) {rows' : List ApprovalRecord}
    → ((r : ApprovalRecord) → (f r).id ≡ r.id)
    → ((r : ApprovalRecord) → p r ≡ true → Advances r (f r))
    → update_one (λ row. row.id) k p f rows ≡ some rows'
    → Grows (find_approval j rows) (find_approval j rows')
update_one-Grows k p f rows j keeps grows h =
    let (r, found, tested, there) = updated_or_same k p f rows j keeps h in
    elim there [
      | inl same ↦ same-Grows _ _ (inr same)
      | inr (before, after) ↦ rw before (rw after (grows r tested))
    ]
