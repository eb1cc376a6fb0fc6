-- ===== src/Replacer/Nodes.antt =====
-- Lists of nodes, each with its frame.
use db_smw.Common.{
  ℕ, suc, ◌≤◌, ◌≡◌, refl, sym, ap, ◌∙◌, subst, ◌↔◌, ◌≢◌, inl, inr, if_pos, if_neg, List, [], ◌∷◌,
  map, arith, ℕ_discrete, length, In, Distinct,
}
use db_smw.Replacer.{erase_node}
use db_smw.Replacer.Queue.{remove}

abbrev pub frames_of : List (ℕ × ℕ) → List ℕ
frames_of = map (λ e. e.1)

abbrev pub nodes_of : List (ℕ × ℕ) → List ℕ
nodes_of = map (λ e. e.0)

pub In-erase_node :
    (n m f : ℕ) (l : List (ℕ × ℕ)) → In (m, f) (erase_node n l) → In (m, f) l × (m ≢ n)
unfolding erase_node
In-erase_node n m f [] h = absurd h
In-erase_node n m f (e ∷ l) h = ground (arith, In-erase_node n m f l)

pub In-erase_node_ne :
    (n m f : ℕ) (l : List (ℕ × ℕ)) → In (m, f) l → m ≢ n → In (m, f) (erase_node n l)
unfolding erase_node
In-erase_node_ne n m f [] h ne = h
In-erase_node_ne n m f (e ∷ l) h ne = ground (arith, In-erase_node_ne n m f l)

pub In-nodes : (n f : ℕ) (l : List (ℕ × ℕ)) → In (n, f) l → In n (nodes_of l)
In-nodes n f (e ∷ l) (inl p) = inl (ap (λ (x : ℕ × ℕ). x.0) p)
In-nodes n f (e ∷ l) (inr h) = inr (In-nodes n f l h)
In-nodes n f [] h = absurd h

pub In-frames : (n f : ℕ) (l : List (ℕ × ℕ)) → In (n, f) l → In f (frames_of l)
In-frames n f (e ∷ l) (inl p) = inl (ap (λ (x : ℕ × ℕ). x.1) p)
In-frames n f (e ∷ l) (inr h) = inr (In-frames n f l h)
In-frames n f [] h = absurd h

pub In-frames_inv : (f : ℕ) (l : List (ℕ × ℕ)) → In f (frames_of l) → (n : ℕ) × In (n, f) l
In-frames_inv f ((n, g) ∷ l) (inl p) = (n, inl (ap (λ (x : ℕ). (n, x)) p))
In-frames_inv f (e ∷ l) (inr h) = let (n, k) = In-frames_inv f l h in (n, inr k)
In-frames_inv f [] h = absurd h

pub length-frames_of : (l : List (ℕ × ℕ)) → length (frames_of l) ≡ length l
length-frames_of [] = refl
length-frames_of (e ∷ l) = ap suc (length-frames_of l)

-- A node has one frame.
pub same_frame :
    (n f g : ℕ) (l : List (ℕ × ℕ)) → Distinct (nodes_of l) → In (n, f) l → In (n, g) l → f ≡ g
same_frame n f g [] d h k = absurd h
same_frame n f g (e ∷ l) d (inl p) (inl q) = ap (λ (x : ℕ × ℕ). x.1) (sym p ∙ q)
same_frame n f g (e ∷ l) d (inl p) (inr k) =
    absurd (d.0 (In-nodes _ g l (subst (λ m. In (m, g) l) (ap (λ (x : ℕ × ℕ). x.0) (sym p)) k)))
same_frame n f g (e ∷ l) d (inr h) (inl q) =
    absurd (d.0 (In-nodes _ f l (subst (λ m. In (m, f) l) (ap (λ (x : ℕ × ℕ). x.0) (sym q)) h)))
same_frame n f g (e ∷ l) d (inr h) (inr k) = same_frame n f g l d.1 h k

pub length-erase_node : (n : ℕ) (l : List (ℕ × ℕ)) → length (erase_node n l) ≤ length l
unfolding erase_node
length-erase_node n [] = omega arith
length-erase_node n (e ∷ l) = ground (arith, length-erase_node n l)

pub In-nodes_inv : (n : ℕ) (l : List (ℕ × ℕ)) → In n (nodes_of l) → (f : ℕ) × In (n, f) l
In-nodes_inv n ((m, f) ∷ l) (inl p) = (f, inl (ap (λ (x : ℕ). (x, f)) p))
In-nodes_inv n (e ∷ l) (inr h) = let (f, k) = In-nodes_inv n l h in (f, inr k)
In-nodes_inv n [] h = absurd h

pub erase_node-Distinct :
    (n : ℕ) (l : List (ℕ × ℕ)) → Distinct (nodes_of l) → Distinct (nodes_of (erase_node n l))
unfolding erase_node
erase_node-Distinct n [] d = tt
erase_node-Distinct n ((m, f) ∷ l) d = elim (ℕ_discrete m n) [
  | yes p ↦ rw (if_pos (ℕ_discrete m n) p) (erase_node-Distinct n l d.1)
  | no p ↦ rw (if_neg (ℕ_discrete m n) p) (
    λ k.
        let (g, i) = In-nodes_inv m (erase_node n l) k in
        d.0 (In-nodes m g l (In-erase_node n m g l i).0),
    erase_node-Distinct n l d.1,
  )
]

-- The nodes of a list are those of the frame `f` exactly where they are the node `n`.
pub frames-erase_node :
    (n f : ℕ) (l : List (ℕ × ℕ))
    → ((m g : ℕ) → In (m, g) l → (m ≡ n) ↔ (g ≡ f))
    → frames_of (erase_node n l) ≡ remove f (frames_of l)
unfolding erase_node remove
frames-erase_node n f [] h = refl
frames-erase_node n f ((m, g) ∷ l) h =
    ground (arith, h m g (inl refl), frames-erase_node n f l (λ a b k. h a b (inr k)))
