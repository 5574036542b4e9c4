-- ===== src/Tasks/Persisted.antt =====
-- The header tree never gets ahead of the database for good: whatever the interleaving of the tasks
-- of src/main.rs, a header of the tree is in the table, or a task is about to write it, or a task
-- ended because a write failed.
use fork_observer.Prelude.{
  ℕ, ◌≡◌, ◌⊎◌, refl, sym, ap, subst, ◌∙◌, inl, inr, some, [], In, get_elem?, ◌==◌, ==_iff,
  Bool-cases,
}
use fork_observer.Bitcoin.{Bitcoin}
use fork_observer.Config.Settings.{Network}
use fork_observer.Db.{Sqlite, row_of}
use fork_observer.Db.Keys.{KeepsKeys, HasHeader, HasHeader-same}
use fork_observer.Errors.{Crates}
use fork_observer.Identify
use fork_observer.Identify.{request_unidentified}
use fork_observer.Identify.Effect as Identified
use fork_observer.Identify.Effect.{HeaderAt, InPlace, request_unidentified_same}
use fork_observer.Petgraph.{DiGraph}
use fork_observer.Petgraph.Walk.{Walk}
use fork_observer.Petgraph.Weights.{Weights}
use fork_observer.Poll.{World, Poller}
use fork_observer.Poll.Effect as Polled
use fork_observer.Poll.Effect.{unwritten, IsStopped}
use fork_observer.Tasks.{
  System, moved, Step, task, poll, identify, request, elsewhere, Reach, here, next,
}
use fork_observer.Tree.{TreeInfo, nodes}
use fork_observer.Tree.Indexed.{IsIndexed}
use fork_observer.Types.{HeaderInfo}

moved_self :
    {B : Bitcoin} {E : Crates} (pollers : ℕ → Poller B E) (i : ℕ) (p : Poller B E)
    → moved pollers i p i ≡ p
moved_self pollers i p = rw ((==_iff i i).1 refl) refl

module _ {B : Bitcoin} {E : Crates} {P : DiGraph (HeaderInfo B)} (S : Sqlite B E)
    (network : Network) where
  -- The table has the header, or a task is about to write it, or a task has stopped.
  abbrev pub Accounted : System P S → HeaderInfo B → Type 0
  Accounted s h =
      HasHeader S network.id s.world.db h
      ⊎ ((i : ℕ) × (g : HeaderInfo B) × In g (unwritten (s.pollers i).phase)
          × (g.header ≡ h.header))
      ⊎ ((i : ℕ) × IsStopped (s.pollers i).phase)

  pub record IsPersisted (s : System P S) : Type 0 where
    pub indexed : IsIndexed s.world.tree
    pub in_place : InPlace s.world.tree s.identifier
    pub accounted : (h : HeaderInfo B) → In h (nodes s.world.tree) → Accounted s h

  pub kept-InPlace :
      (t t' : TreeInfo B P) (phase : Identify.Phase B)
      → ((i : ℕ) (h : HeaderInfo B)
          → get_elem? (nodes t) i ≡ some h
          → get_elem? (nodes t') i ≡ some h)
      → InPlace t phase
      → InPlace t' phase
  kept-InPlace t t' (Identify.asking idx h) kept p = record {
    there = p.there;
    at_idx = kept idx p.there p.at_idx;
    same_header = p.same_header;
    same_height = p.same_height;
  }
  kept-InPlace t t' (Identify.storing idx h) kept p = record {
    there = p.there;
    at_idx = kept idx p.there p.at_idx;
    same_header = p.same_header;
    same_height = p.same_height;
  }
  kept-InPlace t t' Identify.receiving kept p = tt
  kept-InPlace t t' (Identify.persisting h) kept p = tt
  kept-InPlace t t' (Identify.caching h) kept p = tt

  -- A header stays accounted for when a polling task moves.
  Accounted-poll :
      (s : System P S) (i : ℕ) (p : Poller B E) (w : World P S) (h : HeaderInfo B)
      → Polled.Effect S network (s.pollers i).phase p.phase s.world w
      → Accounted s h
      → Accounted (record { world = w; pollers = moved s.pollers i p; identifier = s.identifier }) h
  Accounted-poll s i p w h e (inl stored) = inl (e.keys (row_of S network.id h) stored)
  Accounted-poll s i p w h e (inr (inl (j, g, pending, same))) = elim (Bool-cases (i == j)) [
    | inl here' ↦
        let at_i : i ≡ j = (==_iff i j).0 here' in
        let pending' = subst (λ k. In g (unwritten (s.pollers k).phase)) (sym at_i) pending in
        elim (e.written g pending') [
          | inl stored ↦ inl (HasHeader-same S network.id w.db g h same stored)
          | inr (f, stop) ↦ inr (inr (i, (f, ap (λ x. x.phase) (moved_self s.pollers i p) ∙ stop)))
        ]
    | inr other ↦ inr (inl (j, g, rw other pending, same))
  ]
  Accounted-poll s i p w h e (inr (inr (j, stop))) = elim (Bool-cases (i == j)) [
    | inl here' ↦
        let at_i : i ≡ j = (==_iff i j).0 here' in
        let (f, stop') = e.stays (subst (λ k. IsStopped (s.pollers k).phase) (sym at_i) stop) in
        inr (inr (i, (f, ap (λ x. x.phase) (moved_self s.pollers i p) ∙ stop')))
    | inr other ↦ inr (inr (j, rw other stop))
  ]

  poll-IsPersisted :
      (s : System P S) (i : ℕ) (p : Poller B E) (w : World P S)
      → Polled.Effect S network (s.pollers i).phase p.phase s.world w
      → IsPersisted s
      → IsPersisted (record { world = w; pollers = moved s.pollers i p; identifier = s.identifier })
  poll-IsPersisted s i p w e v = record {
    indexed = e.indexed v.indexed;
    in_place = kept-InPlace s.world.tree w.tree s.identifier (e.kept v.indexed) v.in_place;
    accounted = λ h m. elim (e.grown v.indexed h m) [
      | inl old ↦ Accounted-poll s i p w h e (v.accounted h old)
      | inr new ↦ inr (
          inl (
            i,
            h,
            subst (λ x. In h (unwritten x)) (ap (λ x. x.phase) (sym (moved_self s.pollers i p)))
                new,
            refl,
          ))
    ];
  }

  identify-IsPersisted :
      (s : System P S) (phase : Identify.Phase B) (w : World P S)
      → Identified.Effect S phase s.world w
      → IsPersisted s
      → IsPersisted (record { world = w; pollers = s.pollers; identifier = phase })
  identify-IsPersisted s phase w e v = record {
    indexed = e.indexed;
    in_place = e.in_place;
    accounted = λ h m.
        let (g, old, same) = e.headers h m in
        elim (v.accounted g old) [
          | inl stored ↦
              inl
                (HasHeader-same S network.id w.db g h same (e.keys (row_of S network.id g) stored))
          | inr (inl (i, k, pending, same')) ↦ inr (inl (i, k, pending, same' ∙ same))
          | inr (inr stop) ↦ inr (inr stop)
        ];
  }

  -- A change of the queue, of the caches, or of the database that keeps its keys
  quiet-IsPersisted :
      (s : System P S) (w : World P S)
      → w.tree ≡ s.world.tree
      → KeepsKeys S s.world.db w.db
      → IsPersisted s
      → IsPersisted (record s { world = w })
  quiet-IsPersisted s w t k v = record {
    indexed = subst IsIndexed (sym t) v.indexed;
    in_place = subst (λ x. InPlace x s.identifier) (sym t) v.in_place;
    accounted = λ h m. elim (v.accounted h (subst (λ x. In h (nodes x)) t m)) [
      | inl stored ↦ inl (k (row_of S network.id h) stored)
      | inr rest ↦ inr rest
    ];
  }

module _ {B : Bitcoin} {E : Crates} {P : DiGraph (HeaderInfo B)} (W : Walk P) (G : Weights P)
    (S : Sqlite B E) (network : Network) where
  Step-IsPersisted :
      {s t : System P S}
      → Step W G S network s t
      → IsPersisted S network s
      → IsPersisted S network t
  Step-IsPersisted {s} (task (poll i a p w runs e)) v = subst (IsPersisted S network) (sym e) (
      poll-IsPersisted S network s i p w
        (Polled.advance-Effect W S network a (s.pollers i) p s.world w runs) v)
  Step-IsPersisted {s} (task (identify a phase w runs e)) v =
      subst (IsPersisted S network) (sym e) (
        identify-IsPersisted S network s phase w
          (Identified.advance-Effect G S network a s.world w phase v.indexed s.identifier v.in_place
            runs)
          v)
  Step-IsPersisted {s} (task (request w runs e)) v =
      let (t, d, c) = request_unidentified_same S network s.world w runs in
      subst (IsPersisted S network) (sym e)
        (quiet-IsPersisted S network s w t (subst (KeepsKeys S s.world.db) (sym d) (λ r k. k)) v)
  Step-IsPersisted {s} (elsewhere db caches keeps same e) v =
      subst (IsPersisted S network) (sym e) (quiet-IsPersisted S network s _ refl keeps v)

  pub Reach-IsPersisted :
      {start s : System P S}
      → Reach W G S network start s
      → IsPersisted S network start
      → IsPersisted S network s
  Reach-IsPersisted here v = v
  Reach-IsPersisted (next r step) v = Step-IsPersisted step (Reach-IsPersisted r v)

  -- From a start in which the index of the tree is correct, no miner is being identified and the
  -- table has every header of the tree, any interleaving of the tasks leads to a state in which
  -- the index is correct and each header of the tree is in the table, or is about to be written by
  -- a polling task, or a polling task has stopped at a failed write.
  pub reached_persisted :
      {start s : System P S}
      → IsIndexed start.world.tree
      → start.identifier ≡ Identify.receiving
      → ((h : HeaderInfo B)
          → In h (nodes start.world.tree)
          → HasHeader S network.id start.world.db h)
      → Reach W G S network start s
      → IsIndexed s.world.tree
        × ((h : HeaderInfo B) → In h (nodes s.world.tree) → Accounted S network s h)
  reached_persisted {start} i idle stored r =
      let v = Reach-IsPersisted r (record {
        indexed = i;
        in_place = subst (InPlace start.world.tree) (sym idle) tt;
        accounted = λ h m. inl (stored h m);
      }) in
      (v.indexed, v.accounted)

  -- No task is between the insertion into the tree and the write, and none has stopped.
  abbrev IsSettled : System P S → Type 0
  IsSettled s = (i : ℕ) → (unwritten (s.pollers i).phase ≡ []) × (¬ IsStopped (s.pollers i).phase)

  -- So the table has every header of the tree whenever no task has stopped and none is about to
  -- write.
  settled_persisted :
      (s : System P S)
      → IsSettled s
      → ((h : HeaderInfo B) → In h (nodes s.world.tree) → Accounted S network s h)
      → (h : HeaderInfo B) → In h (nodes s.world.tree)
      → HasHeader S network.id s.world.db h
  settled_persisted s settled accounted h m = elim (accounted h m) [
    | inl there ↦ there
    | inr (inl (i, g, pending, same)) ↦ absurd (subst (In g) (settled i).0 pending)
    | inr (inr (i, stop)) ↦ absurd ((settled i).1 stop)
  ]
