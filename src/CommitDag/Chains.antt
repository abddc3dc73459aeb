-- ===== src/CommitDag/Chains.antt =====
-- commit_dag.rs: `add_edge` and the two lists of edges that it threads through the vector.
use subduction.CommitDag.{
  head_of, Node, Edge, CommitDag, modify, parent_head, child_head, field_at, head_of, add_edge,
  follow,
}
use subduction.Prelude.{
  ℕ, zero, suc, ◌*◌, ◌≤◌, ◌<◌, ◌≡◌, refl, sym, ap, ◌∙◌, subst, inl, inr, Option, none, some, List,
  [], ◌∷◌, ◌++◌, arith, if◌then◌else◌, ◌==◌, nat_eq, ==_iff, Bool-cases, Option-cases, length,
  get_elem?, length-append, bytes_eq, bytes_list_eq,
}

get_elem?-append :
    {A : Type 0} (xs ys : List A) (i : ℕ) (a : A)
    → get_elem? xs i ≡ some a
    → get_elem? (xs ++ ys) i ≡ some a
get_elem?-append [] ys i a h = cc
get_elem?-append (x ∷ xs) ys zero a h = h
get_elem?-append (x ∷ xs) ys (suc i) a h = get_elem?-append xs ys i a h

get_elem?-length :
    {A : Type 0} (xs ys : List A) (a : A) → get_elem? (xs ++ (a ∷ ys)) (length xs) ≡ some a
get_elem?-length [] ys a = refl
get_elem?-length (x ∷ xs) ys a = get_elem?-length xs ys a

abbrev map_option : {A B : Type 0} → (A → B) → Option A → Option B
map_option f none = none
map_option f (some a) = some (f a)

modify-cons :
    {A : Type 0} (f : A → A) (i : ℕ) (x : A) (xs zs : List A)
    → modify f (suc i) (x ∷ xs) ≡ some zs
    → (ys : List A) × (modify f i xs ≡ some ys) × (zs ≡ x ∷ ys)
unfolding modify
modify-cons f i x xs zs h = elim (Option-cases (modify f i xs)) [
  | inl miss ↦ ground (arith, h, miss)
  | inr (ys, hit) ↦ (ys, hit, ground (arith, h, hit))
]

get_elem?-modify :
    {A : Type 0} (f : A → A) (i : ℕ) (xs zs : List A) (j : ℕ)
    → modify f i xs ≡ some zs
    → get_elem? zs j ≡ (if i == j then map_option f (get_elem? xs j) else get_elem? xs j)
unfolding modify
get_elem?-modify f i [] zs j h = cc
get_elem?-modify f zero (x ∷ xs) zs zero h = let q : f x ∷ xs ≡ zs = cc h in rw (← q) (ground arith)
get_elem?-modify f zero (x ∷ xs) zs (suc j) h =
    let q : f x ∷ xs ≡ zs = cc h in rw (← q) (ground arith)
get_elem?-modify f (suc i) (x ∷ xs) zs zero h =
    let (ys, e, q) = modify-cons f i x xs zs h in rw q (ground arith)
get_elem?-modify f (suc i) (x ∷ xs) zs (suc j) h =
    let (ys, e, q) = modify-cons f i x xs zs h in
    rw q (ground (arith, get_elem?-modify f i xs ys j e))

modify_total :
    {A : Type 0} (f : A → A) (i : ℕ) (xs : List A)
    → i < length xs
    → (zs : List A) × (modify f i xs ≡ some zs) × (length zs ≡ length xs)
unfolding modify
modify_total f i [] h = absurd (omega (arith, h))
modify_total f zero (x ∷ xs) h = (f x ∷ xs, refl, refl)
modify_total f (suc i) (x ∷ xs) h =
    let (ys, e, l) = modify_total f i xs (omega (arith, h)) in (x ∷ ys, rw e refl, ap suc l)

modify_within :
    {A : Type 0} (f : A → A) (i : ℕ) (xs zs : List A) → modify f i xs ≡ some zs → i < length xs
unfolding modify
modify_within f i [] zs h = cc
modify_within f zero (x ∷ xs) zs h = omega arith
modify_within f (suc i) (x ∷ xs) zs h =
    let (ys, e, _) = modify-cons f i x xs zs h in omega (arith, modify_within f i xs ys e)

-- The sources that are found from an edge on.
pub data Chain (edges : List Edge) : Option ℕ → List ℕ → Type 0 where
  last : Chain edges none []
  link :
      {e : ℕ} {edge : Edge} {xs : List ℕ}
      → get_elem? edges e ≡ some edge
      → Chain edges edge.next xs
      → Chain edges (some e) (edge.source ∷ xs)

-- New edges come behind the old ones.
Chain-append :
    (edges more : List Edge) {o : Option ℕ} {xs : List ℕ}
    → Chain edges o xs
    → Chain (edges ++ more) o xs
Chain-append edges more last = last
Chain-append edges more (link {e} {edge} h c) =
    link (get_elem?-append edges more e edge h) (Chain-append edges more c)

-- `ParentsIter` walks a chain to its end.
pub follow-Chain :
    (fuel : ℕ) (edges : List Edge) {o : Option ℕ} {xs : List ℕ}
    → Chain edges o xs
    → length xs ≤ fuel
    → follow fuel edges o ≡ xs
unfolding follow
follow-Chain zero edges last h = refl
follow-Chain (suc n) edges last h = refl
follow-Chain zero edges (link hit c) h = absurd (omega (arith, h))
follow-Chain (suc n) edges (link {e} {edge} hit c) h =
    rw (hit, follow) (ap (◌∷◌ edge.source) (follow-Chain n edges c (omega (arith, h))))

-- The edges so far, the latest first, as pairs of a source and a target.
abbrev pub Pairs : Type 0
Pairs = List (ℕ × ℕ)

abbrev pub sources_to : ℕ → Pairs → List ℕ
sources_to t [] = []
sources_to t ((source, target) ∷ es) =
    if target == t then source ∷ sources_to t es else sources_to t es

abbrev pub targets_from : ℕ → Pairs → List ℕ
targets_from s [] = []
targets_from s ((source, target) ∷ es) =
    if source == s then target ∷ targets_from s es else targets_from s es

-- The two lists of every node hold its edges, each in one direction.
pub record Represents (dag : CommitDag) (es : Pairs) : Type 0 where
  pub count : length dag.edges ≡ 2 * length es
  pub parents : (t : ℕ) → Chain dag.edges (parent_head dag.nodes t) (sources_to t es)
  pub children : (s : ℕ) → Chain dag.edges (child_head dag.nodes s) (targets_from s es)

pub get_elem?-within :
    {A : Type 0} (i : ℕ) (xs : List A) → i < length xs → (a : A) × (get_elem? xs i ≡ some a)
get_elem?-within i [] h = absurd (omega (arith, h))
get_elem?-within zero (x ∷ xs) h = (x, refl)
get_elem?-within (suc i) (x ∷ xs) h = get_elem?-within i xs (omega (arith, h))

-- The heads of the lists after a node is changed.
head_of-modify :
    (field : Node → Option ℕ) (f : Node → Node) (i : ℕ) (nodes nodes' : List Node) (t : ℕ)
    (o : Option ℕ)
    → modify f i nodes ≡ some nodes'
    → ((node : Node) → field (f node) ≡ o)
    → head_of field nodes' t ≡ (if i == t then o else head_of field nodes t)
head_of-modify field f i nodes nodes' t o h set = elim (Bool-cases (i == t)) [
  | inl hit ↦
      let (a, found) = get_elem?-within i nodes (modify_within f i nodes nodes' h) in
      let found' : get_elem? nodes t ≡ some a =
        ap (get_elem? nodes) (sym ((==_iff i t).0 hit)) ∙ found in
      let changed : get_elem? nodes' t ≡ some (f a) =
        ground (arith, get_elem?-modify f i nodes nodes' t h, hit, found') in
      ap (field_at field) changed ∙ set a ∙ ground (arith, hit)
  | inr miss ↦
      let same : get_elem? nodes' t ≡ get_elem? nodes t =
        ground (arith, get_elem?-modify f i nodes nodes' t h, miss) in
      ap (field_at field) same ∙ ground (arith, miss)
]

head_of_kept :
    (field : Node → Option ℕ) (f : Node → Node) (i : ℕ) (nodes nodes' : List Node) (t : ℕ)
    → modify f i nodes ≡ some nodes'
    → ((node : Node) → field (f node) ≡ field node)
    → head_of field nodes' t ≡ head_of field nodes t
head_of_kept field f i nodes nodes' t h kept = elim (Bool-cases (i == t)) [
  | inl hit ↦
      let (a, found) = get_elem?-within i nodes (modify_within f i nodes nodes' h) in
      let found' : get_elem? nodes t ≡ some a =
        ap (get_elem? nodes) (sym ((==_iff i t).0 hit)) ∙ found in
      let changed : get_elem? nodes' t ≡ some (f a) =
        ground (arith, get_elem?-modify f i nodes nodes' t h, hit, found') in
      ap (field_at field) changed ∙ kept a ∙ sym (ap (field_at field) found')
  | inr miss ↦
      let same : get_elem? nodes' t ≡ get_elem? nodes t =
        ground (arith, get_elem?-modify f i nodes nodes' t h, miss) in
      ap (field_at field) same
]

-- A new edge before a chain.
Chain-front :
    (edges more : List Edge) (s : ℕ) (o : Option ℕ) (xs : List ℕ)
    → Chain edges o xs
    → Chain (edges ++ (record { source = s; next = o } ∷ more)) (some (length edges)) (s ∷ xs)
Chain-front edges more s o xs c =
    link (get_elem?-length edges more (record { source = s; next = o })) (Chain-append edges _ c)

pub add_edge-made :
    (dag : CommitDag) (source target : ℕ) (nodes nodes' : List Node)
    → modify (λ node. record node { parents = some (length dag.edges) }) target dag.nodes
      ≡ some nodes
    → modify
        (λ node. record node {
          children = some (
              length (
                dag.edges
                ++ (record { source = source; next = parent_head dag.nodes target } ∷ [])));
        })
        source
        nodes
      ≡ some nodes'
    → add_edge dag source target
      ≡ some (record {
        nodes = nodes';
        node_map = dag.node_map;
        edges =
            (dag.edges ++ (record { source = source; next = parent_head dag.nodes target } ∷ []))
            ++ (record { source = target; next = child_head nodes source } ∷ []);
      })
unfolding add_edge
add_edge-made dag source target nodes nodes' e1 e2 = rw (e1, add_edge, e2) refl

-- `add_edge` between two nodes puts the edge in front of the two lists that it belongs to.
pub add_edge-Represents :
    (dag : CommitDag) (es : Pairs) (source target : ℕ)
    → Represents dag es
    → source < length dag.nodes
    → target < length dag.nodes
    → (dag' : CommitDag) × (add_edge dag source target ≡ some dag')
      × Represents dag' ((source, target) ∷ es)
      × (length dag'.nodes ≡ length dag.nodes)
      × (dag'.node_map ≡ dag.node_map)
add_edge-Represents dag es source target r within_s within_t =
    let k = length dag.edges in
    let (nodes, e1, l1) =
      modify_total (λ node. record node { parents = some k }) target dag.nodes within_t in
    let edges : List Edge =
      dag.edges ++ (record { source = source; next = parent_head dag.nodes target } ∷ []) in
    let k' = length edges in
    let (nodes', e2, l2) =
      modify_total (λ node. record node { children = some k' }) source nodes
        (omega (arith, within_s, l1)) in
    (
      record {
        nodes = nodes';
        node_map = dag.node_map;
        edges = edges ++ (record { source = target; next = child_head nodes source } ∷ []);
      },
      add_edge-made dag source target nodes nodes' e1 e2,
      record {
        count = omega (
          arith,
          r.count,
          length-append edges (record { source = target; next = child_head nodes source } ∷ []),
          length-append dag.edges
              (record { source = source; next = parent_head dag.nodes target } ∷ []),
        );
        parents = λ t.
            let head : parent_head nodes' t
                ≡ (if target == t then some k else parent_head dag.nodes t) =
              head_of_kept (λ n. n.parents) _ source nodes nodes' t e2 (λ n. refl)
              ∙ head_of-modify (λ n. n.parents) _ target dag.nodes nodes t (some k) e1
                  (λ n. refl) in
            elim (Bool-cases (target == t)) [
              | inl hit ↦
                  rw (head, hit)
                    (Chain-append edges _ (
                      Chain-front dag.edges [] source _ _ (
                        subst
                          (λ x. Chain dag.edges (parent_head dag.nodes target) (sources_to x es))
                          ((==_iff target t).0 hit) (r.parents target))))
              | inr miss ↦
                  rw (head, miss) (Chain-append edges _ (Chain-append dag.edges _ (r.parents t)))
            ];
        children = λ s.
            let head : child_head nodes' s ≡ (if source == s then some k' else child_head nodes s) =
              head_of-modify (λ n. n.children) _ source nodes nodes' s (some k') e2 (λ n. refl) in
            let old : child_head nodes s ≡ child_head dag.nodes s =
              head_of_kept (λ n. n.children) _ target dag.nodes nodes s e1 (λ n. refl) in
            let before : Chain edges (child_head nodes s) (targets_from s es) =
              rw old (Chain-append dag.edges _ (r.children s)) in
            elim (Bool-cases (source == s)) [
              | inl hit ↦
                  rw (head, hit)
                    (Chain-front edges [] target _ _ (
                      subst (λ x. Chain edges (child_head nodes x) (targets_from s es))
                        (sym ((==_iff source s).0 hit)) before))
              | inr miss ↦ rw (head, miss) (Chain-append edges _ before)
            ];
      },
      l2 ∙ l1,
      refl,
    )
