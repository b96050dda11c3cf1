-- ===== src/Observer/Store/Operations/Mesh.antt =====
-- When updateMesh of packages/observer/src/store.ts emits an event.
use federated_reserve.Prelude.{
  ℕ, String, List, [], ◌∷◌, ◌≡◌, ◌∙◌, ◌↔◌, refl, sym, subst, true, false, Bool-cases, inl, inr,
  ◌==◌, nat_eq, string_eq, contains, length, arith, ◌≤◌,
}
use federated_reserve.Prelude.Distinct.{IsDistinct, length-subset, subset_of_length}
use federated_reserve.Shared.Platform.{Platform}
use federated_reserve.Observer.Store.{ObserverStore, MeshView, emit}
use federated_reserve.Observer.Store.Operations.{update_mesh, same_mesh, all_in}

-- The same peers, in whatever order.
abbrev pub SamePeers : List String → List String → Type 0
SamePeers xs ys = (q : String) → (contains q xs ≡ true) ↔ (contains q ys ≡ true)

all_in_sound :
    (xs ys : List String)
    → all_in xs ys ≡ true
    → (q : String) → contains q xs ≡ true
    → contains q ys ≡ true
all_in_sound [] ys h q c = cc
all_in_sound (x ∷ xs) ys h q c = elim (Bool-cases (x == q)) [
  | inl same ↦
      subst (λ z. contains z ys ≡ true) ((string_eq.same_iff x q).0 same) (ground (arith, h))
  | inr other ↦ all_in_sound xs ys (ground (arith, h)) q (ground (arith, c, other))
]

all_in_complete :
    (xs ys : List String)
    → ((q : String) → contains q xs ≡ true → contains q ys ≡ true)
    → all_in xs ys ≡ true
all_in_complete [] ys h = refl
all_in_complete (x ∷ xs) ys h =
    rw (h x (ground (arith, string_eq.same_iff x x)))
      (all_in_complete xs ys (λ q c. h q (later q c)))
  where
    later : (q : String) → contains q xs ≡ true → contains q (x ∷ xs) ≡ true
    later q c = ground (arith, c)

same_mesh_iff :
    (mesh : MeshView) (key : String) (peers : List String)
    → IsDistinct mesh.peers
    → IsDistinct peers
    → (same_mesh mesh key peers ≡ true)
      ↔ ((mesh.observer_pubkey ≡ key) × SamePeers mesh.peers peers)
unfolding same_mesh
same_mesh_iff mesh key peers n k = (sound, complete)
  where
    sound :
        same_mesh mesh key peers ≡ true → (mesh.observer_pubkey ≡ key) × SamePeers mesh.peers peers
    sound h =
        let size : length mesh.peers ≡ length peers = ground (arith, h) in
        let part = all_in_sound mesh.peers peers (ground (arith, h)) in
        (
          (string_eq.same_iff mesh.observer_pubkey key).0 (ground (arith, h)),
          λ q. (part q, subset_of_length mesh.peers peers n k size part q),
        )

    complete :
        (mesh.observer_pubkey ≡ key) × SamePeers mesh.peers peers → same_mesh mesh key peers ≡ true
    complete (own, same) =
        let there = λ (q : String). (same q).0 in
        let back = λ (q : String). (same q).1 in
        let part : all_in mesh.peers peers ≡ true = all_in_complete mesh.peers peers there in
        let mine : (mesh.observer_pubkey == key) ≡ true =
          (string_eq.same_iff mesh.observer_pubkey key).1 own in
        let less : length mesh.peers ≤ length peers = length-subset mesh.peers peers n k there in
        let more : length peers ≤ length mesh.peers = length-subset peers mesh.peers k n back in
        let size : length mesh.peers ≡ length peers = omega (arith, less, more) in
        rw (part, mine, (nat_eq.same_iff (length mesh.peers) (length peers)).1 size) refl

-- Where neither the old peers nor the new ones hold one twice, an update of the mesh emits no event
-- exactly where the observer's key and the set of its peers are as they were.
pub update_mesh-IsQuiet :
    (p : Platform) (now : ℕ) (key : String) (peers : List String) (s : ObserverStore)
    → IsDistinct s.mesh.peers
    → IsDistinct peers
    → ((update_mesh p now key peers s).next_event_id ≡ s.next_event_id)
      ↔ ((s.mesh.observer_pubkey ≡ key) × SamePeers s.mesh.peers peers)
unfolding update_mesh emit
update_mesh-IsQuiet p now key peers s n k =
    let (sound, complete) = same_mesh_iff s.mesh key peers n k in
    elim (Bool-cases (same_mesh s.mesh key peers)) [
      | inl e ↦ rw e ((λ _. sound e), (λ _. refl))
      | inr e ↦ rw e (
        (λ grown. absurd (omega (arith, grown))),
        (λ same. absurd (clash (sym (complete same) ∙ e))),
      )
    ]
  where
    clash : true ≡ false → ⊥
    clash c = cc
