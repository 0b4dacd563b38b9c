-- ===== src/Nodes/Engine/Laws.antt =====
-- Reasoning about actions: what a successful chain went through, which actions leave the
-- workflow's status alone, and a status after it is put.
use flytepropeller.Prelude.{
  String, ◌≡◌, ◌≢◌, ◌∙◌, refl, none, some, arith, lookup-insert, eq_iff, str_eq, if◌then◌else◌,
  true, ap, Option,
}
use flytepropeller.Api.Error.{Result, ok, err}
use flytepropeller.Api.NodeStatus.{NodeStatus, new_status}
use flytepropeller.Nodes.Transformers.Event.{NodeEvent}
use flytepropeller.Nodes.Engine.{
  World, Exec, ◌>>=◌, Engine, status_at, put_status, idempotent_record_event, write_file, Literals,
}

-- A chain that succeeds went through a first step that succeeded.
pub >>=-eq-ok {ℓ κ} :
    {A : Type ℓ} {B : Type κ} (m : Exec A) (f : A → Exec B) (w : World) {v : World} {b : B}
    → (m >>= f) w ≡ (v, ok b)
    → (u : World) × (a : A) × (m w ≡ (u, ok a)) × (f a u ≡ (v, ok b))
>>=-eq-ok {A} m f w {v} {b} h = go (m w) refl h
  where
    go :
        (x : World × Result A)
        → m w ≡ x
        → (elim x.1 [ ok a ↦ f a x.0 | err e ↦ (x.0, err e) ]) ≡ (v, ok b)
        → (u : World) × (a : A) × (m w ≡ (u, ok a)) × (f a u ≡ (v, ok b))
    go (u, ok a) e k = (u, a, e, k)
    go (u, err x) e k = absurd (cc)

-- An action that leaves the workflow's status, and so every node's, as it was.
abbrev pub Keeps {ℓ} : {A : Type ℓ} → Exec A → Type 0
Keeps m = (w : World) → (m w).0.workflow ≡ w.workflow

pub status_at-workflow :
    (id : String) (v w : World) → v.workflow ≡ w.workflow → status_at id v ≡ status_at id w
unfolding status_at
status_at-workflow id v w h = rw h

abbrev or_new : Option NodeStatus → NodeStatus
or_new none = new_status
or_new (some s) = s

pub status_at-put_status :
    (id j : String) (s : NodeStatus) (w : World)
    → status_at j (put_status id s w) ≡ (if str_eq id j then s else status_at j w)
unfolding status_at put_status
status_at-put_status id j s w =
    ap or_new (lookup-insert id j s w.workflow.node_status) ∙ ground arith

pub status_at-put_status_self :
    (id : String) (s : NodeStatus) (w : World) → status_at id (put_status id s w) ≡ s
status_at-put_status_self id s w = ground (arith, status_at-put_status id id s w, eq_iff id id)

pub status_at-put_status_ne :
    (id j : String) (s : NodeStatus) (w : World)
    → str_eq id j ≢ true
    → status_at j (put_status id s w) ≡ status_at j w
status_at-put_status_ne id j s w h = ground (arith, status_at-put_status id j s w)

module _ (c : Engine) where
  pub idempotent_record_event-Keeps : (e : Option NodeEvent) → Keeps (idempotent_record_event c e)
  unfolding idempotent_record_event
  idempotent_record_event-Keeps none w = refl
  idempotent_record_event-Keeps (some e) w = refl

  pub write_file-Keeps : (path : String) (l : Literals) → Keeps (write_file c path l)
  unfolding write_file
  write_file-Keeps path l w = refl

-- A chain keeps what its steps keep.
pub >>=-Keeps {ℓ κ} :
    {A : Type ℓ} {B : Type κ} (m : Exec A) (f : A → Exec B)
    → Keeps m
    → ((a : A) → Keeps (f a))
    → Keeps (m >>= f)
>>=-Keeps {A} {B} m f hm hf w = go (m w) (hm w)
  where
    go :
        (x : World × Result A)
        → x.0.workflow ≡ w.workflow
        → (elim x.1 as (λ _. World × Result B) [ ok a ↦ f a x.0 | err e ↦ (x.0, err e) ]).0.workflow
          ≡ w.workflow
    go (u, ok a) k = hf a u ∙ k
    go (u, err x) k = k

-- Two chains agree where their steps do.
pub >>=-cong {ℓ κ} :
    {A : Type ℓ} {B : Type κ} (m m' : Exec A) (f f' : A → Exec B) (w : World)
    → m w ≡ m' w
    → ((a : A) (u : World) → f a u ≡ f' a u)
    → (m >>= f) w ≡ (m' >>= f') w
>>=-cong {A} {B} m m' f f' w h k = go (m w) ∙ ap after h
  where
    after : World × Result A → World × Result B
    after x = elim x.1 as (λ _. World × Result B) [ ok a ↦ f' a x.0 | err e ↦ (x.0, err e) ]

    go :
        (x : World × Result A)
        → (elim x.1 as (λ _. World × Result B) [ ok a ↦ f a x.0 | err e ↦ (x.0, err e) ])
          ≡ (elim x.1 as (λ _. World × Result B) [ ok a ↦ f' a x.0 | err e ↦ (x.0, err e) ])
    go (u, ok a) = k a u
    go (u, err x) = refl
