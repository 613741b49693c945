-- ===== src/SessionManager/Allocator.antt =====
-- The endpoints that MockServerAllocator of services/api/utils/session_manager.py hands out: the
-- port is `base_port + number of allocated servers`.
use matchmaker_platform.Prelude.{
  ℕ, ◌+◌, ◌<◌, ◌≡◌, ◌≢◌, refl, ◌∙◌, sym, String, none, some, List, [], ◌∷◌, ◌++◌, arith, ◌==◌, inr,
  if◌then◌else◌, length, All,
}
use mathlib.Core.List.{append_assoc}
use matchmaker_platform.Text.{Text, codes, decimal}
use matchmaker_platform.Text.Decimal.{decimal-All, decimal_injective}
use matchmaker_platform.SessionManager.{
  ServerAllocator, lookup_server, store_server, pop_server, endpoint_text, allocate_server,
  deallocate_server,
}

length-store_new :
    (k : ℕ) (e : Text) (d : List (ℕ × Text))
    → lookup_server k d ≡ none
    → length (store_server k e d) ≡ length d + 1
unfolding lookup_server store_server
length-store_new k e [] h = omega arith
length-store_new k e (x ∷ d) h = ground (arith, length-store_new k e d)

lookup-store :
    (j k : ℕ) (e : Text) (d : List (ℕ × Text))
    → lookup_server j (store_server k e d) ≡ (if k == j then some e else lookup_server j d)
unfolding lookup_server store_server
lookup-store j k e [] = refl
lookup-store j k e (x ∷ d) = ground (arith, lookup-store j k e d)

length-pop :
    (k : ℕ) (d : List (ℕ × Text))
    → lookup_server k d ≢ none
    → length (pop_server k d) + 1 ≡ length d
unfolding lookup_server pop_server
length-pop k [] h = absurd (h refl)
length-pop k (x ∷ d) h = ground (arith, length-pop k d)

lookup-pop_ne :
    (j k : ℕ) (d : List (ℕ × Text)) → j ≢ k → lookup_server j (pop_server k d) ≡ lookup_server j d
unfolding lookup_server pop_server
lookup-pop_ne j k [] h = refl
lookup-pop_ne j k (x ∷ d) h = ground (arith, lookup-pop_ne j k d h)

not_free : (c : ℕ) (b u : Text) → ¬ All (λ d. d ≢ c) (b ++ c ∷ u)
not_free c [] u h = h.0 refl
not_free c (x ∷ b) u h = not_free c b u h.1

-- What follows the last occurrence of a character is determined by the text.
same_suffix :
    (c : ℕ) (a b t u : Text)
    → All (λ d. d ≢ c) t
    → All (λ d. d ≢ c) u
    → a ++ c ∷ t ≡ b ++ c ∷ u
    → t ≡ u
same_suffix c [] [] t u ht hu e = cc
same_suffix c [] (y ∷ b) t u ht hu e =
    absurd (not_free c b u (let q : t ≡ b ++ c ∷ u = cc in rw q at ht))
same_suffix c (x ∷ a) [] t u ht hu e =
    absurd (not_free c a t (let q : u ≡ a ++ c ∷ t = cc in rw q at hu))
same_suffix c (x ∷ a) (y ∷ b) t u ht hu e = same_suffix c a b t u ht hu (cc)

-- Endpoints with different ports are different texts, whatever the regions.
endpoint_text_injective :
    (r s : String) (h : Text) (p q : ℕ) → endpoint_text r h p ≡ endpoint_text s h q → p ≡ q
unfolding endpoint_text
endpoint_text_injective r s h p q e = decimal_injective p q (
    same_suffix 58 (codes r ++ 46 ∷ h) (codes s ++ 46 ∷ h) (decimal p) (decimal q)
      (decimal-All p 58 (inr (omega arith))) (decimal-All q 58 (inr (omega arith)))
      (append_assoc (codes r) (46 ∷ h) (58 ∷ decimal p)
        ∙ (e ∙ sym (append_assoc (codes s) (46 ∷ h) (58 ∷ decimal q)))))

-- What a list of requests (match, region, mode) is answered, when nothing is released meanwhile.
pub allocate_all : List (ℕ × String × String) → ServerAllocator → List Text
allocate_all [] a = []
allocate_all ((m, region, mode) ∷ rs) a =
    let (b, endpoint) = allocate_server m region mode a in endpoint ∷ allocate_all rs b

-- The matches are not served yet, and none asks twice.
abbrev pub AreNew : List (ℕ × String × String) → ServerAllocator → Type 0
AreNew [] a = Unit
AreNew ((m, region, mode) ∷ rs) a =
    (lookup_server m a.allocated_servers ≡ none) × AreNew rs (allocate_server m region mode a).0

abbrev pub Distinct : List Text → Type 0
Distinct [] = Unit
Distinct (t ∷ ts) = All (λ u. t ≢ u) ts × Distinct ts

length-allocate :
    (m : ℕ) (region mode : String) (a : ServerAllocator)
    → lookup_server m a.allocated_servers ≡ none
    → length (allocate_server m region mode a).0.allocated_servers ≡ length a.allocated_servers + 1
unfolding allocate_server
length-allocate m region mode a new = length-store_new m _ a.allocated_servers new

allocate_all-ports :
    (r : String) (p : ℕ) (rs : List (ℕ × String × String)) (a : ServerAllocator)
    → AreNew rs a
    → p < a.base_port + length a.allocated_servers
    → All (λ u. endpoint_text r a.base_host p ≢ u) (allocate_all rs a)
unfolding allocate_all allocate_server
allocate_all-ports r p [] a new h = tt
allocate_all-ports r p ((m, region, mode) ∷ rs) a new h = (
  λ e. absurd (
      omega (
        arith,
        endpoint_text_injective r region a.base_host p (a.base_port + length a.allocated_servers) e,
      )),
  allocate_all-ports r p rs (allocate_server m region mode a).0 new.1
      (omega (arith, length-allocate m region mode a new.0)),
)

-- Without a release in between, new matches get pairwise different endpoints.
pub allocate_all-Distinct :
    (rs : List (ℕ × String × String)) (a : ServerAllocator)
    → AreNew rs a
    → Distinct (allocate_all rs a)
unfolding allocate_all allocate_server
allocate_all-Distinct [] a new = tt
allocate_all-Distinct ((m, region, mode) ∷ rs) a new =
    let b = (allocate_server m region mode a).0 in
    (
      allocate_all-ports region (a.base_port + length a.allocated_servers) rs b new.1
          (omega (arith, length-allocate m region mode a new.0)),
      allocate_all-Distinct rs b new.1,
    )

deallocate_known :
    (m : ℕ) (e : Text) (a : ServerAllocator)
    → lookup_server m a.allocated_servers ≡ some e
    → deallocate_server m a ≡ record a { allocated_servers = pop_server m a.allocated_servers }
unfolding deallocate_server
deallocate_known m e a h = ground arith

length-reused :
    (m n : ℕ) (e f : Text) (d : List (ℕ × Text))
    → m ≢ n
    → lookup_server m d ≡ none
    → lookup_server n d ≡ none
    → length (pop_server m (store_server n f (store_server m e d))) ≡ length (store_server m e d)
length-reused m n e f d mn hm hn = ground (
  arith,
  lookup-store m n f (store_server m e d),
  lookup-store m m e d,
  lookup-store n m e d,
  length-pop m (store_server n f (store_server m e d)),
  length-store_new n f (store_server m e d),
)

-- After a release the port of a running match is handed out again: two matches that are not served
-- yet are allocated in one region, the first is released, and the next match to be allocated there
-- gets the endpoint of the second, which the allocator then holds for both.
pub allocate-deallocate_reuses :
    (m n k : ℕ) (region mode : String) (a : ServerAllocator)
    → m ≢ n
    → n ≢ k
    → lookup_server m a.allocated_servers ≡ none
    → lookup_server n a.allocated_servers ≡ none
    → let (b, _) = allocate_server m region mode a in
      let (c, running) = allocate_server n region mode b in
      let (d, handed_out) = allocate_server k region mode (deallocate_server m c) in
      (handed_out ≡ running)
      × (lookup_server n d.allocated_servers ≡ some running)
      × (lookup_server k d.allocated_servers ≡ some running)
unfolding allocate_server
allocate-deallocate_reuses m n k region mode a mn nk hm hn =
    let d = a.allocated_servers in
    let e = endpoint_text region a.base_host (a.base_port + length d) in
    let d1 = store_server m e d in
    let f = endpoint_text region a.base_host (a.base_port + length d1) in
    let d2 = store_server n f d1 in
    let served : lookup_server m d2 ≡ some e =
      ground (arith, lookup-store m n f d1, lookup-store m m e d) in
    rw (deallocate_known m e (record a { allocated_servers = d2 }) served) (
      ground (
        arith,
        length-reused m n e f d mn hm hn,
        length-store_new m e d hm,
        lookup-store n k f (pop_server m d2),
        lookup-store k k f (pop_server m d2),
        lookup-pop_ne n m d2,
        lookup-store n n f d1,
      ))
