-- ===== src/Queue/Discovery/Limits.antt =====
-- The acquisition jobs of a crawl against the limit of its parameters.
use chess_crawl.Prelude.{
  ℕ, ◌+◌, ◌≤◌, ◌≡◌, max, refl, sym, ap, subst, ◌∙◌, String, Text, Bool, true, false, not, ◌&&◌,
  Option, none, some, List, [], ◌∷◌, arith, count-append, count-map, find, leb, ltb, Bool-cases,
  select, inl, inr,
}
use chess_crawl.Queue.Model.{
  Archive, Job, JobKind, crawl_opponents, same_kind, is_processing_kind, is_archive_kind,
  parse_kind,
}
use chess_crawl.Queue.Write.{
  Session, own_job, insert_job, inserted, update_row, update_jobs, set_job_revision,
}
use chess_crawl.Queue.Write.Inversion.{insert_job-eq-some}
use chess_crawl.Queue.Runs.{in_run, crawl_user_count, acquisition_job_count}
use chess_crawl.Queue.Depth.{
  known_crawl_depth, promote_crawl_depth, promoted, promotable, expand_each,
  enqueue_opponent_expansion, enqueue_expansion_in, expand_if, expansion_request, keeps_frontier,
  crawls_user,
}
use chess_crawl.Queue.Result.{Result, ok, guard, expansion_parent, ◌>>=◌, >>=-eq-ok}
use chess_crawl.Queue.Enqueue.{
  Digest, Backlog, Request, EnqueueResult, enqueue_job, enqueue_new, new_job, request_key,
  matches_key, validate_schedulable_job,
}
use chess_crawl.Queue.Dedup.{enqueue_new-eq-ok}
use chess_crawl.Queue.Discovery.{
  Expansion, OpponentEdge, int_param, child_request, count_child, enqueue_within, enqueue_unknown,
  enqueue_child, enqueue_edges, enqueue_opponent_children,
}

-- The rows that acquisition_job_count counts.
acquires : ℕ → Job → Bool
acquires run j = in_run run j && not (is_processing_kind j.kind)

own_job-kind :
    (s : Session) (db : Archive) (j j' : Job) → own_job s db j ≡ some j' → j'.kind ≡ j.kind
unfolding own_job
own_job-kind s db j j' h = ground arith

-- A new row is one row more, and none where it is a job of processing.
insert_job-count :
    (run : ℕ) (s : Session) (row : Job) (db db' : Archive) (id : ℕ)
    → insert_job s row db ≡ some (db', id)
    → (acquisition_job_count db' run ≤ acquisition_job_count db run + 1)
      × (is_processing_kind row.kind ≡ true
          → acquisition_job_count db' run ≡ acquisition_job_count db run)
unfolding acquisition_job_count inserted
insert_job-count run s row db db' id h =
    let new : Job = record row { id = db.next_job_id; revision = 1 } in
    let (j, owned, free, result, given) = insert_job-eq-some s row db db' id h in
    let p : Job → Bool = λ j. in_run run j && not (is_processing_kind j.kind) in
    let kind : j.kind ≡ row.kind = own_job-kind s db new j owned in
    let more = count-append p db.jobs (j ∷ []) in
    (
      subst (λ (a : Archive). acquisition_job_count a run ≤ acquisition_job_count db run + 1)
          (sym result) (ground (arith, more)),
      λ processing.
          subst (λ (a : Archive). acquisition_job_count a run ≡ acquisition_job_count db run)
            (sym result)
            (let same : is_processing_kind j.kind ≡ true =
                ap is_processing_kind kind ∙ processing in
              ground (arith, more, same)),
    )

enqueue_new-count :
    (run : ℕ) (room : Backlog) (s : Session) (db db' : Archive) (r : Request) (kind : JobKind)
    (dedup : String) (result : EnqueueResult) (found : Option Job)
    → enqueue_new room s db r kind dedup found ≡ ok (db', result)
    → (acquisition_job_count db' run ≤ acquisition_job_count db run + 1)
      × (is_processing_kind kind ≡ true
          → acquisition_job_count db' run ≡ acquisition_job_count db run)
unfolding enqueue_new new_job
enqueue_new-count run room s db db' r kind dedup result (some j) e =
    let same : db ≡ db' = ground (arith, e) in
    subst
      (λ (a : Archive).
        (acquisition_job_count a run ≤ acquisition_job_count db run + 1)
        × (is_processing_kind kind ≡ true
            → acquisition_job_count a run ≡ acquisition_job_count db run))
      same (omega arith, λ h. refl)
enqueue_new-count run room s db db' r kind dedup result none e =
    insert_job-count run s (new_job r kind dedup) db db' result.job_id
      (enqueue_new-eq-ok room s db db' r kind dedup result e).1

-- An accepted job is one acquisition job more at most.
enqueue_job-count :
    (run : ℕ) (digest : Digest) (room : Backlog) (s : Session) (r : Request) (db db' : Archive)
    (result : EnqueueResult)
    → enqueue_job digest room s r db ≡ ok (db', result)
    → acquisition_job_count db' run ≤ acquisition_job_count db run + 1
unfolding enqueue_job
enqueue_job-count run digest room s r db db' result e =
    let (kind, valid, rest) = >>=-eq-ok (validate_schedulable_job r.provider r.kind) _ e in
    (enqueue_new-count run room s db db' r kind _ result _ rest).0

expansion_kind :
    (provider : String) (kind : JobKind)
    → validate_schedulable_job (some provider) "expand_opponents" ≡ ok kind
    → is_processing_kind kind ≡ true
unfolding validate_schedulable_job is_processing_kind parse_kind is_archive_kind
expansion_kind provider kind h = ground (arith, h)

update_jobs-count :
    (run : ℕ) (p : Job → Bool) (depth : ℕ) (db : Archive)
    → acquisition_job_count (update_jobs p (promoted depth) db) run ≡ acquisition_job_count db run
unfolding update_jobs update_row set_job_revision promoted acquisition_job_count
update_jobs-count run p depth db =
    count-map (λ (j : Job). in_run run j && not (is_processing_kind j.kind))
      (update_row p (promoted depth)) db.jobs
      (λ j. elim (Bool-cases (p j)) [ inl e ↦ rw e refl | inr e ↦ rw e refl ])

-- The expansion of a parent is a job of processing.
enqueue_expansion_in-count :
    (run : ℕ) (digest : Digest) (room : Backlog) (s : Session) (parent : Job) (depth : Option ℕ)
    (now : ℕ) (db db' : Archive) (result : EnqueueResult) (in_run : Option ℕ)
    (provider : Option String)
    → enqueue_expansion_in digest room s parent depth now db in_run provider ≡ ok (db', result)
    → acquisition_job_count db' run ≡ acquisition_job_count db run
unfolding enqueue_expansion_in enqueue_job expansion_request
enqueue_expansion_in-count run digest room s parent depth now db db' result none provider h = cc
enqueue_expansion_in-count run digest room s parent depth now db db' result (some r) none h =
    let (u, passed, next) =
      >>=-eq-ok (guard (same_kind parent.kind crawl_opponents) expansion_parent) _ h in
    cc
enqueue_expansion_in-count run digest room s parent depth now db db' result (some r) (some provider)
      h =
    let (u, passed, next) =
      >>=-eq-ok (guard (same_kind parent.kind crawl_opponents) expansion_parent) _ h in
    let (kind, valid, rest) =
      >>=-eq-ok (validate_schedulable_job (some provider) "expand_opponents") _ next in
    let made : Request = expansion_request db parent r provider depth now in
    let key : String = request_key digest made in
    (enqueue_new-count run room s db db' made kind key result
        (find (matches_key key made.reuse_terminal) db.jobs) rest).1
      (expansion_kind provider kind valid)

expand_if-count :
    (run : ℕ) (digest : Digest) (room : Backlog) (s : Session) (depth now : ℕ) (db db' : Archive)
    (p : Job) (rest : Archive → Result Archive) (b : Bool)
    → ((a : Archive)
        → rest a ≡ ok db'
        → acquisition_job_count db' run ≡ acquisition_job_count a run)
    → expand_if digest room s depth now db p rest b ≡ ok db'
    → acquisition_job_count db' run ≡ acquisition_job_count db run
unfolding expand_if enqueue_opponent_expansion
expand_if-count run digest room s depth now db db' p rest false later h = later db h
expand_if-count run digest room s depth now db db' p rest true later h =
    let (r, made, next) =
      >>=-eq-ok (enqueue_opponent_expansion digest room s p (some depth) now db) _ h in
    later r.0 next
    ∙ enqueue_expansion_in-count run digest room s p (some depth) now db r.0 r.1 p.crawl_run_id
        p.provider made

expand_each-count :
    (run : ℕ) (digest : Digest) (room : Backlog) (s : Session) (depth now : ℕ) (ps : List Job)
    (db db' : Archive)
    → expand_each digest room s depth now ps db ≡ ok db'
    → acquisition_job_count db' run ≡ acquisition_job_count db run
unfolding expand_each
expand_each-count run digest room s depth now [] db db' h =
    let same : db ≡ db' = ground (arith, h) in
    ap (λ (a : Archive). acquisition_job_count a run) (sym same)
expand_each-count run digest room s depth now (p ∷ ps) db db' h =
    expand_if-count run digest room s depth now db db' p _ (keeps_frontier p.state)
      (λ a h'. expand_each-count run digest room s depth now ps a db' h') h

promote_crawl_depth-count :
    (run : ℕ) (digest : Digest) (room : Backlog) (s : Session) (r : ℕ) (provider : String)
    (username : Text) (depth now : ℕ) (db db' : Archive)
    → promote_crawl_depth digest room s r provider username depth now db ≡ ok db'
    → acquisition_job_count db' run ≡ acquisition_job_count db run
unfolding promote_crawl_depth
promote_crawl_depth-count run digest room s r provider username depth now db db' h =
    expand_each-count run digest room s depth now (select (crawls_user r provider username) db.jobs)
      _ db' h
    ∙ update_jobs-count run (promotable r provider username depth) depth db

ok_archive :
    (a : Archive) (n : ℕ) (r : Archive × ℕ)
    → ◌≡◌ {A = Result (Archive × ℕ)} (ok (a, n)) (ok r)
    → a ≡ r.0
ok_archive a n (b, m) h = ground (arith, h)

ok_number : (m : Result ℕ) (a b : ℕ) → m ≡ ok a → m ≡ ok b → a ≡ b
ok_number m a b h g = ground (arith, h, g)

below_limit :
    (before after limit : ℕ)
    → leb limit before ≡ false
    → after ≤ before + 1
    → after ≤ max before limit
below_limit before after limit free more = ground (arith, free, more)

enqueue_within-count :
    (digest : Digest) (room : Backlog) (s : Session) (x : Expansion) (edge : OpponentEdge)
    (db : Archive) (n max_jobs : ℕ) {r : Archive × ℕ}
    → enqueue_within digest room s x edge db n max_jobs ≡ ok r
    → acquisition_job_count r.0 x.crawl_run_id
      ≤ max (acquisition_job_count db x.crawl_run_id) max_jobs
unfolding enqueue_within
enqueue_within-count digest room s x edge db n max_jobs {r} h =
    elim (Bool-cases (leb max_jobs (acquisition_job_count db x.crawl_run_id))) [
      | inl full ↦
          let kept : db ≡ r.0 = ok_archive db n r (ground (arith, full, h)) in
          subst
            (λ (a : Archive).
              acquisition_job_count a x.crawl_run_id
              ≤ max (acquisition_job_count db x.crawl_run_id) max_jobs)
            kept (omega arith)
      | inr free ↦
          let added : (enqueue_job digest room s (child_request x edge) db >>= count_child n)
              ≡ ok r =
            ground (arith, free, h) in
          let (made, stored, next) =
            >>=-eq-ok (enqueue_job digest room s (child_request x edge) db) (count_child n) added in
          subst
            (λ (a : Archive).
              acquisition_job_count a x.crawl_run_id
              ≤ max (acquisition_job_count db x.crawl_run_id) max_jobs)
            (ok_archive made.0 _ r next)
            (below_limit (acquisition_job_count db x.crawl_run_id)
              (acquisition_job_count made.0 x.crawl_run_id) max_jobs free
              (enqueue_job-count x.crawl_run_id digest room s (child_request x edge) db made.0
                made.1 stored))
    ]

-- What the expansion may leave: the count stays, or is within the limit.
abbrev Within : Expansion → ℕ → Archive → Archive → Type 0
Within x max_jobs db db' =
    acquisition_job_count db' x.crawl_run_id
    ≤ max (acquisition_job_count db x.crawl_run_id) max_jobs

enqueue_unknown-count :
    (digest : Digest) (room : Backlog) (s : Session) (x : Expansion) (edge : OpponentEdge)
    (db : Archive) (n max_jobs : ℕ) {r : Archive × ℕ}
    → int_param "max_jobs" x.params ≡ ok max_jobs
    → enqueue_unknown digest room s x edge db n ≡ ok r
    → Within x max_jobs db r.0
unfolding enqueue_unknown
enqueue_unknown-count digest room s x edge db n max_jobs {r} limit h =
    let (max_users, users, next) = >>=-eq-ok (int_param "max_users" x.params) _ h in
    elim (Bool-cases (leb max_users (crawl_user_count db x.crawl_run_id))) [
      | inl full ↦
          subst (λ (a : Archive). Within x max_jobs db a)
            (ok_archive db n r (ground (arith, full, next))) (omega arith)
      | inr free ↦
          let rest : (int_param "max_jobs" x.params >>= enqueue_within digest room s x edge db n)
              ≡ ok r =
            ground (arith, free, next) in
          let (jobs, given, made) =
            >>=-eq-ok (int_param "max_jobs" x.params) (enqueue_within digest room s x edge db n)
              rest in
          subst (λ (l : ℕ). Within x l db r.0)
            (ok_number (int_param "max_jobs" x.params) jobs max_jobs given limit)
            (enqueue_within-count digest room s x edge db n jobs made)
    ]

enqueue_child-count :
    (digest : Digest) (room : Backlog) (s : Session) (x : Expansion) (edge : OpponentEdge)
    (db : Archive) (n max_jobs : ℕ) (known : Option ℕ) {r : Archive × ℕ}
    → int_param "max_jobs" x.params ≡ ok max_jobs
    → enqueue_child digest room s x edge db n known ≡ ok r
    → Within x max_jobs db r.0
unfolding enqueue_child
enqueue_child-count digest room s x edge db n max_jobs none limit h =
    enqueue_unknown-count digest room s x edge db n max_jobs limit h
enqueue_child-count digest room s x edge db n max_jobs (some d) {r} limit h =
    elim (Bool-cases (leb d x.next_depth)) [
      | inl shallow ↦
          subst (λ (a : Archive). Within x max_jobs db a)
            (ok_archive db n r (ground (arith, shallow, h))) (omega arith)
      | inr deep ↦
          let rest : (promote_crawl_depth digest room s x.crawl_run_id x.provider
                  edge.opponent_username x.next_depth x.now db
                >>= λ a. ok (a, n))
              ≡ ok r =
            ground (arith, deep, h) in
          let (db', promotion, next) =
            >>=-eq-ok
              (promote_crawl_depth digest room s x.crawl_run_id x.provider edge.opponent_username
                x.next_depth x.now db)
              (λ a. ok (a, n)) rest in
          subst (λ (a : Archive). Within x max_jobs db a) (ok_archive db' n r next)
            (let same =
                promote_crawl_depth-count x.crawl_run_id digest room s x.crawl_run_id x.provider
                  edge.opponent_username x.next_depth x.now db db' promotion in
              omega (arith, same))
    ]

enqueue_edges-count :
    (digest : Digest) (room : Backlog) (s : Session) (x : Expansion) (edges : List OpponentEdge)
    (db : Archive) (n max_jobs : ℕ) {r : Archive × ℕ}
    → int_param "max_jobs" x.params ≡ ok max_jobs
    → enqueue_edges digest room s x edges db n ≡ ok r
    → Within x max_jobs db r.0
unfolding enqueue_edges
enqueue_edges-count digest room s x [] db n max_jobs {r} limit h =
    subst (λ (a : Archive). Within x max_jobs db a) (ok_archive db n r h) (omega arith)
enqueue_edges-count digest room s x (edge ∷ edges) db n max_jobs {r} limit h =
    let known : Option ℕ = known_crawl_depth db x.crawl_run_id x.provider edge.opponent_username in
    let (q, made, next) = >>=-eq-ok (enqueue_child digest room s x edge db n known) _ h in
    let first = enqueue_child-count digest room s x edge db n max_jobs known limit made in
    let later = enqueue_edges-count digest room s x edges q.0 q.1 max_jobs limit next in
    omega (arith, first, later)

-- Where enqueue_opponent_children returns, whatever users it meets, promotes or enqueues, the
-- acquisition jobs of its run are no more than before or are within the max_jobs of its parameters.
pub enqueue_opponent_children-max :
    (digest : Digest) (room : Backlog) (s : Session) (x : Expansion) (edges : List OpponentEdge)
    (db db' : Archive) (inserted max_jobs : ℕ)
    → int_param "max_jobs" x.params ≡ ok max_jobs
    → enqueue_opponent_children digest room s x edges db ≡ ok (db', inserted)
    → acquisition_job_count db' x.crawl_run_id
      ≤ max (acquisition_job_count db x.crawl_run_id) max_jobs
unfolding enqueue_opponent_children
enqueue_opponent_children-max digest room s x edges db db' inserted max_jobs limit h =
    let (max_depth, depth, next) = >>=-eq-ok (int_param "max_depth" x.params) _ h in
    elim (Bool-cases (ltb max_depth x.next_depth)) [
      | inl deep ↦
          subst (λ (a : Archive). Within x max_jobs db a)
            (ok_archive db 0 (db', inserted) (ground (arith, deep, next))) (omega arith)
      | inr shallow ↦
          enqueue_edges-count digest room s x edges db 0 max_jobs {r = (db', inserted)} limit
            (ground (arith, shallow, next))
    ]
