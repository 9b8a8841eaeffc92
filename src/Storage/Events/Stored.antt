-- ===== src/Storage/Events/Stored.antt =====
-- packages/storage-sqlite/src/event-ingestion.ts: an event and its stored form are the same event.
use twindesk.Prelude.{
  ◌≡◌, refl, ap, Bool, true, not, ◌&&◌, ◌||◌, List, [], ◌∷◌, String, arith, all, any, string_eq,
}
use twindesk.Domain.Records.{ContextState, complete, partial, ExternalEvent}
use twindesk.Domain.Json.{array, object, canonical, insert_text, sort_texts}
use twindesk.Domain.Json.Canonical.{sort_texts-sort_texts, canonical-canonical, json_at-canonical}
use twindesk.Domain.Parsers.{
  distinct_by, is_nonempty, same_text, string_array_at, context_at, external_event_at,
}
use twindesk.Domain.Validation.{string_at}
use twindesk.Storage.Digest.{Document}
use twindesk.Storage.Events.{
  context_status, sorted_missing, event_json, stored_context, stored_event, event_digest,
  text_items,
}

all-insert_text :
    (p : String → Bool) (s : String) (ss : List String)
    → all p (insert_text s ss) ≡ (p s && all p ss)
unfolding insert_text
all-insert_text p s [] = refl
all-insert_text p s (t ∷ ts) = ground (arith, all-insert_text p s ts)

any-insert_text :
    (x s : String) (ss : List String)
    → any (same_text x) (insert_text s ss) ≡ (same_text x s || any (same_text x) ss)
unfolding insert_text
any-insert_text x s [] = refl
any-insert_text x s (t ∷ ts) = ground (arith, any-insert_text x s ts)

distinct-insert_text :
    (s : String) (ss : List String)
    → distinct_by same_text (insert_text s ss)
      ≡ (not (any (same_text s) ss) && distinct_by same_text ss)
unfolding insert_text distinct_by
distinct-insert_text s [] = refl
distinct-insert_text s (t ∷ ts) = ground (arith, distinct-insert_text s ts, any-insert_text t s ts)

all-sort_texts : (p : String → Bool) (ss : List String) → all p (sort_texts ss) ≡ all p ss
unfolding sort_texts
all-sort_texts p [] = refl
all-sort_texts p (s ∷ ss) = rw (all-insert_text p s (sort_texts ss)) (rw (all-sort_texts p ss) refl)

any-sort_texts :
    (x : String) (ss : List String) → any (same_text x) (sort_texts ss) ≡ any (same_text x) ss
unfolding sort_texts
any-sort_texts x [] = refl
any-sort_texts x (s ∷ ss) = rw (any-insert_text x s (sort_texts ss)) (rw (any-sort_texts x ss) refl)

distinct-sort_texts :
    (ss : List String) → distinct_by same_text (sort_texts ss) ≡ distinct_by same_text ss
unfolding sort_texts distinct_by
distinct-sort_texts [] = refl
distinct-sort_texts (s ∷ ss) =
    rw (distinct-insert_text s (sort_texts ss))
      (rw (any-sort_texts s ss) (rw (distinct-sort_texts ss) refl))

insert_text_nonempty : (s : String) (ss : List String) → is_nonempty (insert_text s ss) ≡ true
unfolding insert_text
insert_text_nonempty s [] = refl
insert_text_nonempty s (t ∷ ts) = ground arith

nonempty-sort_texts : (ss : List String) → is_nonempty (sort_texts ss) ≡ is_nonempty ss
unfolding sort_texts
nonempty-sort_texts [] = refl
nonempty-sort_texts (s ∷ ss) = insert_text_nonempty s (sort_texts ss)

string_array_at-sort_texts :
    (ss : List String) → string_array_at (sort_texts ss) ≡ string_array_at ss
unfolding string_array_at
string_array_at-sort_texts ss =
    rw (nonempty-sort_texts ss)
      (rw (all-sort_texts string_at ss) (rw (distinct-sort_texts ss) refl))

context_at-stored_context : (c : ContextState) → context_at (stored_context c) ≡ context_at c
unfolding context_at stored_context
context_at-stored_context complete = refl
context_at-stored_context (partial missing) = string_array_at-sort_texts missing

-- The row of an event is accepted where the event is.
pub external_event_at-stored_event :
    (e : ExternalEvent) → external_event_at (stored_event e) ≡ external_event_at e
unfolding external_event_at stored_event
external_event_at-stored_event e =
    rw (context_at-stored_context e.context) (rw (json_at-canonical 0 (object e.normalized)) refl)

sorted_missing-stored_context :
    (c : ContextState) → sorted_missing (stored_context c) ≡ sorted_missing c
unfolding sorted_missing stored_context
sorted_missing-stored_context complete = refl
sorted_missing-stored_context (partial missing) =
    ap (λ ss. array (text_items ss)) (sort_texts-sort_texts missing)

context_status-stored_context :
    (c : ContextState) → context_status (stored_context c) ≡ context_status c
unfolding stored_context
context_status-stored_context complete = refl
context_status-stored_context (partial missing) = refl

module _ (sha256_hex : Document → String) where
  pub event_digest-stored_event :
      (e : ExternalEvent) → event_digest sha256_hex (stored_event e) ≡ event_digest sha256_hex e
  unfolding event_digest event_json stored_event canonical
  event_digest-stored_event e = rw (sorted_missing-stored_context e.context) (
      rw (context_status-stored_context e.context)
        (rw (canonical-canonical (object e.normalized)) refl))
