-- ===== src/Tasks/Refinement.antt =====
-- The tasks of src/main.rs, seen from outside: for all that their interleavings do to the graph, the
-- index, the miners, the database and the caches, the header tree is a map from block hashes to
-- headers to which headers are added.
use fork_observer.Prelude.{ℕ, ◌≡◌, refl, sym, ap, subst, ◌∙◌, inl, inr, some, List, [], ◌++◌, map}
use fork_observer.Bitcoin.{Bitcoin}
use fork_observer.Cache.Panics.{Holds}
use fork_observer.Config.Settings.{Network}
use fork_observer.Db.{Sqlite}
use fork_observer.Errors.{Crates}
use fork_observer.Identify
use fork_observer.Identify.Effect.{InPlace, request_unidentified_same}
use fork_observer.Identify.Moves as IdentifyMoves
use fork_observer.Petgraph.{DiGraph}
use fork_observer.Petgraph.Walk.{Walk}
use fork_observer.Petgraph.Weights.{Weights}
use fork_observer.Poll.Moves.{TreeMove, advance-Moves}
use fork_observer.Tasks.{System, Step, task, poll, identify, request, elsewhere, Reach, here, next}
use fork_observer.Tasks.Panics.{IsSafe, Reach-IsSafe}
use fork_observer.Tree.{TreeInfo}
use fork_observer.Tree.Indexed.{IsIndexed}
use fork_observer.Tree.Links.{HashCommits}
use fork_observer.Tree.Parents.{IsForest}
use fork_observer.Tree.View.{
  view, learn, learn-append, learn-keeps, view-insert_new_headers_into_tree,
}
use fork_observer.Types.{HeaderInfo}

module _ {B : Bitcoin} {P : DiGraph (HeaderInfo B)} where
  -- The second tree is the first one with headers learned in some order.
  abbrev pub Learns : TreeInfo B P → TreeInfo B P → Type 0
  Learns t t' = (hs : List B.Header) × (view t' ≡ learn B hs (view t))

  TreeMove-Learns : (t t' : TreeInfo B P) → IsIndexed t → TreeMove t t' → Learns t t'
  TreeMove-Learns t t' v (inl same) = ([], ap view same)
  TreeMove-Learns t t' v (inr (hs, changed, runs)) = (
    map (λ (h : HeaderInfo B). h.header) hs,
    view-insert_new_headers_into_tree hs t t' changed v runs,
  )

  Learns-trans : (t u v : TreeInfo B P) → Learns t u → Learns u v → Learns t v
  Learns-trans t u v (xs, first) (ys, second) =
      (xs ++ ys, second ∙ ap (learn B ys) first ∙ sym (learn-append B xs ys (view t)))

module _ {B : Bitcoin} {E : Crates} {P : DiGraph (HeaderInfo B)} (W : Walk P) (G : Weights P)
    (S : Sqlite B E) (network : Network) (ids : List ℕ) (commits : HashCommits B) where
  Step-Learns :
      {s t : System P S}
      → Step W G S network s t
      → IsSafe W G S network ids commits s
      → Learns s.world.tree t.world.tree
  Step-Learns {s} (task (poll i a p w runs e)) v =
      let (_, tree) = advance-Moves W S network a (s.pollers i) p s.world w runs in
      subst (λ x. Learns s.world.tree x.world.tree) (sym e)
        (TreeMove-Learns s.world.tree w.tree v.forest.indexed tree)
  Step-Learns {s} (task (identify a phase w runs e)) v =
      let (_, _, same_view) =
        IdentifyMoves.advance-Moves G S network a s.world w phase v.forest s.identifier v.in_place
          runs in
      subst (λ x. Learns s.world.tree x.world.tree) (sym e) ([], same_view)
  Step-Learns {s} (task (request w runs e)) v =
      let (t, _, _) = request_unidentified_same S network s.world w runs in
      subst (λ x. Learns s.world.tree x.world.tree) (sym e) ([], ap view t)
  Step-Learns {s} (elsewhere db caches keeps same e) v =
      subst (λ x. Learns s.world.tree x.world.tree) (sym e) ([], refl)

  Reach-Learns :
      {start s : System P S}
      → Reach W G S network start s
      → IsSafe W G S network ids commits start
      → Learns start.world.tree s.world.tree
  Reach-Learns here v = ([], refl)
  Reach-Learns {start} (next {s} {t} r step) v =
      Learns-trans start.world.tree s.world.tree t.world.tree (Reach-Learns r v)
        (Step-Learns step (Reach-IsSafe W G S network ids commits r v))

  -- From a start in which the tree is a forest, no miner is being identified and the cache of the
  -- network has its nodes, where block hashes commit to the previous block: the view of the tree
  -- in any reachable state is the view at the start with some headers learned, each under its
  -- hash unless a header was known there; so a hash whose header is known keeps that header.
  pub reached-Learns :
      {start s : System P S}
      → IsForest start.world.tree
      → start.identifier ≡ Identify.receiving
      → Holds network.id ids start.world.caches
      → Reach W G S network start s
      → Learns start.world.tree s.world.tree
        × ((hash : B.BlockHash) (h : B.Header)
            → view start.world.tree hash ≡ some h
            → view s.world.tree hash ≡ some h)
  reached-Learns {start} {s} forest idle holds r =
      let (hs, learned) = Reach-Learns r (record {
        forest = forest;
        in_place = subst (InPlace start.world.tree) (sym idle) tt;
        holds = holds;
      }) in
      (
        (hs, learned),
        λ hash h e. ap (λ f. f hash) learned ∙ learn-keeps B hs (view start.world.tree) hash h e,
      )
