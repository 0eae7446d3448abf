-- ===== src/RaftApp/Order.antt =====
-- The rolling order: the hosts restart one after another, and a DEPLOYED job has them all done.
use Prim.Native.Nat.{◌<◌, ◌+◌}
use deployd.Prelude.{
  ℕ, String, ◌≡◌, ◌≢◌, refl, ap, ◌∙◌, ◌⊎◌, inl, inr, some, List, arith, All, All-of_get_elem?,
  Distinct, Distinct-get_elem?_lt, elem-get_elem?, lt_of_get_elem?, length, get_elem?, eq_iff, ◌==◌,
  Bool-cases, nat_beq,
}
use deployd.Prelude.GoMap.{table, set, keys_of, lookup, lookup-set, keys_of-set}
use deployd.Entity.Job.{
  DeploymentJob, DeploymentJobStatus, HostDeploymentStatus, HostDeploymentStatusInfo,
}
use deployd.RaftApp.Lifecycle.{
  Step, AtHost, cancel, host_reports, host_completes, begin, confirm, fail, note, next, finish,
}

-- The table says that the host restarted with success.
abbrev pub IsDone : String → List (String × HostDeploymentStatusInfo) → Type 0
IsDone h l =
    (i : HostDeploymentStatusInfo) × (lookup h l ≡ some i)
    × (i.status ≡ HostDeploymentStatus.success)

-- Every host in front of the n-th is done.
abbrev pub DoneBefore : ℕ → List String → List (String × HostDeploymentStatusInfo) → Type 0
DoneBefore n hosts l = (i : ℕ) (h : String) → i < n → get_elem? hosts i ≡ some h → IsDone h l

-- A job whose hosts are distinct and whose table is the host order's.
pub record Tracks (j : DeploymentJob) : Type 0 where
  pub distinct : Distinct j.deployment.host_order
  pub table_of : List (String × HostDeploymentStatusInfo)
  pub holds : j.deployment.status ≡ table table_of
  pub exact : keys_of table_of ≡ j.deployment.host_order
  pub done :
      j.status ≡ DeploymentJobStatus.deploying
      → (n : ℕ) → j.deployment.current_order ≡ some n
      → DoneBefore n j.deployment.host_order table_of
  pub all_done :
      j.status ≡ DeploymentJobStatus.deployed → All (λ h. IsDone h table_of) j.deployment.host_order

-- A success that is written stays done, and so does every other host.
IsDone-set_success :
    (h k : String) (i : HostDeploymentStatusInfo) (l : List (String × HostDeploymentStatusInfo))
    → i.status ≡ HostDeploymentStatus.success
    → (h ≡ k) ⊎ IsDone k l
    → IsDone k (set h i l)
IsDone-set_success h k i l e d = elim (Bool-cases (h == k)) [
  | inl same ↦ (i, rw (lookup-set, same), e)
  | inr differ ↦ elim d [
    | inl p ↦ cc (differ, (eq_iff h k).1 p)
    | inr q ↦ (q.0, rw (lookup-set, differ) q.1, q.2)
  ]
]

IsDone-set_ne :
    (h k : String) (i : HostDeploymentStatusInfo) (l : List (String × HostDeploymentStatusInfo))
    → h ≢ k
    → IsDone k l
    → IsDone k (set h i l)
IsDone-set_ne h k i l ne d = elim (Bool-cases (h == k)) [
  | inl same ↦ absurd (ne ((eq_iff h k).0 same))
  | inr differ ↦ (d.0, rw (lookup-set, differ) d.1, d.2)
]

module _ {j : DeploymentJob} (v : Tracks j) {n : ℕ} {h : String}
    {l : List (String × HostDeploymentStatusInfo)} (at : AtHost j n h l) where
  before : DoneBefore n j.deployment.host_order l
  before =
      let same : v.table_of ≡ l = cc (v.holds, at.holds) in
      rw same at (v.done at.is_deploying n at.at_order)

  exact_written : (i : HostDeploymentStatusInfo) → keys_of (set h i l) ≡ j.deployment.host_order
  exact_written i =
      let same : v.table_of ≡ l = cc (v.holds, at.holds) in
      let exact : keys_of l ≡ j.deployment.host_order = rw same at v.exact in
      keys_of-set h i l (rw exact (elem-get_elem? j.deployment.host_order n h at.in_turn)) ∙ exact

  -- Up to the host in turn and with it.
  done_through :
      (i : HostDeploymentStatusInfo)
      → i.status ≡ HostDeploymentStatus.success
      → DoneBefore (n + 1) j.deployment.host_order (set h i l)
  done_through i e p k lt q = IsDone-set_success h k i l e (elim (Bool-cases (nat_beq p n)) [
    | inl last ↦ inl (at_n p k (ground arith) q)
    | inr earlier ↦ inr (before p k (ground arith) q)
  ])
    where
      at_n : (p : ℕ) (k : String) → p ≡ n → get_elem? j.deployment.host_order p ≡ some k → h ≡ k
      at_n p k e q = cc (at.in_turn, rw e at q)

  -- A status that is no success touches the host in turn alone.
  done_before : (i : HostDeploymentStatusInfo) → DoneBefore n j.deployment.host_order (set h i l)
  done_before i p k lt q =
      IsDone-set_ne h k i l
        (λ e.
          Distinct-get_elem?_lt j.deployment.host_order p n k v.distinct lt q
            (at.in_turn ∙ ap some e))
        (before p k lt q)

pub Step-Tracks : {j k : DeploymentJob} → Step j k → Tracks j → Tracks k
Step-Tracks {j} (cancel p q e) v = rw e (record {
  distinct = v.distinct;
  table_of = v.table_of;
  holds = v.holds;
  exact = v.exact;
  done = λ d. cc (d);
  all_done = λ d. cc (d);
})
Step-Tracks {j} (host_reports l h i c m a e) v = rw e (record {
  distinct = v.distinct;
  table_of = v.table_of;
  holds = v.holds;
  exact = v.exact;
  done = v.done;
  all_done = v.all_done;
})
Step-Tracks {j} (host_completes l h i c m a e) v = rw e (record {
  distinct = v.distinct;
  table_of = v.table_of;
  holds = v.holds;
  exact = v.exact;
  done = λ d. cc (d);
  all_done = λ d. cc (d);
})
Step-Tracks {j} (begin agent c e) v = rw e (record {
  distinct = v.distinct;
  table_of = v.table_of;
  holds = v.holds;
  exact = v.exact;
  done = λ d n o p h lt q. absurd (ground arith);
  all_done = λ d. cc (d);
})
Step-Tracks {j} (confirm d e) v = rw e v
Step-Tracks {j} (fail n h l i at f e) v = rw e (record {
  distinct = v.distinct;
  table_of = set h i l;
  holds = refl;
  exact = exact_written v at i;
  done = λ d. cc (d);
  all_done = λ d. cc (d);
})
Step-Tracks {j} (note n h l i at f g e) v = rw e (record {
  distinct = v.distinct;
  table_of = set h i l;
  holds = refl;
  exact = exact_written v at i;
  done = λ d m o. same_place m (cc (o, at.at_order)) (done_before v at i);
  all_done = λ d. cc (d, at.is_deploying);
})
  where
    same_place :
        (m : ℕ)
        → n ≡ m
        → DoneBefore n j.deployment.host_order (set h i l)
        → DoneBefore m j.deployment.host_order (set h i l)
    same_place m e d = rw e at d
Step-Tracks {j} (next n h l i at f more e) v = rw e (record {
  distinct = v.distinct;
  table_of = set h i l;
  holds = refl;
  exact = exact_written v at i;
  done = λ d m o. same_place m (cc (o)) (done_through v at i f);
  all_done = λ d. cc (d, at.is_deploying);
})
  where
    same_place :
        (m : ℕ)
        → n + 1 ≡ m
        → DoneBefore (n + 1) j.deployment.host_order (set h i l)
        → DoneBefore m j.deployment.host_order (set h i l)
    same_place m e d = rw e at d
Step-Tracks {j} (finish n h l i at f last e) v = rw e (record {
  distinct = v.distinct;
  table_of = set h i l;
  holds = refl;
  exact = exact_written v at i;
  done = λ d. cc (d);
  all_done = λ d. All-of_get_elem? _ j.deployment.host_order λ p k q.
      done_through v at i f p k
        (omega
          (arith, lt_of_get_elem? j.deployment.host_order p k q, ap length (exact_written v at i)))
        q;
})
