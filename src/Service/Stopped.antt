-- ===== src/Service/Stopped.antt =====
-- What cmd_stop does with the connections of the configuration, one after the other.
use cf_masque_opnsense.Prelude.{
  ◌≡◌, refl, ap, ◌∙◌, sym, ◌⊎◌, true, false, Option, none, some, ℤ, List, [], ◌∷◌, ◌++◌, Bool-cases,
  inl, inr,
}
use cf_masque_opnsense.Text.{Text, codes}
use cf_masque_opnsense.Dict.{Dict}
use cf_masque_opnsense.Outcome.{Result, ok, raise}
use cf_masque_opnsense.Config.{Config, Connection}
use cf_masque_opnsense.Process.{
  Os, World, config_of, pid_file, read_pid, is_running, connection_running,
}
use cf_masque_opnsense.Lifecycle.{
  StopReply, stopped, not_running, stop_result, stop_connection, stop_pid, clean_up, terminate,
}
use cf_masque_opnsense.Lifecycle.Stop.{IsStopped, stop_connection-IsStopped}
use cf_masque_opnsense.Service.{stop_all, cmd_stop, and_then, line_of, summary, on_config}

-- What a step that answers went through.
and_then-eq-ok :
    {S A B : Type 0} (x : Result A × S) (f : A → S → Result B × S) {b : B}
    → (and_then x f).0 ≡ ok b
    → (a : A) × (x.0 ≡ ok a) × (and_then x f ≡ f a x.1)
and_then-eq-ok (ok a, w) f h = (a, refl, refl)
and_then-eq-ok (raise e, w) f h = cc

module _ (os : Os)
    (run_files : (command : List Text) (w : World os.Sys)
      → (os.run command w).files ≡ w.files) where
  open os use {Sys}

  -- A pass over connections, with the lines it reports: each connection has no process under its
  -- pid file and is left alone, or is stopped.
  pub data Sweep : Dict Connection → World Sys → List Text → World Sys → Type 0 where
    done : {w : World Sys} → Sweep [] w [] w
    idle :
        {uuid : Text} {conn : Connection} {more : Dict Connection} {w end : World Sys}
        {rs : List Text}
        → connection_running os uuid conn.protocol w ≡ false
        → Sweep more w rs end
        → Sweep ((uuid, conn) ∷ more) w ((conn.name ++ codes ": not_running") ∷ rs) end
    halted :
        {uuid : Text} {conn : Connection} {more : Dict Connection} {w v end : World Sys}
        {rs : List Text}
        → IsStopped os uuid (pid_file uuid conn.protocol) w v
        → Sweep more v rs end
        → Sweep ((uuid, conn) ∷ more) w ((conn.name ++ codes ": ok") ∷ rs) end

  -- What cmd_stop went through for its answer.
  pub record Swept (w end : World Sys) (answer : Text) : Type 0 where
    pub cfg : Config
    pub configured : config_of w.files ≡ ok cfg
    pub lines : List Text
    pub sweep : Sweep cfg.connections w lines end
    pub answered : answer ≡ summary (codes "stopped: ") lines

  clean_up-stopped :
      (uuid path : Text) (x : Result (Unit {0}) × World Sys) (r : StopReply)
      → (clean_up os uuid path x).0 ≡ ok r
      → stopped ≡ r
  clean_up-stopped uuid path (raise e, w) r h = cc
  clean_up-stopped uuid path (ok u, w) r h = cc

  stop_pid-stopped :
      (uuid path : Text) (o : Option ℤ) (w : World Sys) (r : StopReply)
      → is_running os o w.sys ≡ true
      → (stop_pid os uuid path o w).0 ≡ ok r
      → stopped ≡ r
  unfolding is_running
  stop_pid-stopped uuid path none w r e h = cc
  stop_pid-stopped uuid path (some pid) w r e h =
      clean_up-stopped uuid path (terminate os pid w) r h

  -- A stop that answers found no process and changed nothing, or says that it stopped one.
  stop_connection-cases :
      (uuid : Text) (conn : Connection) (w : World Sys) (r : StopReply)
      → (stop_connection os uuid conn w).0 ≡ ok r
      → ((not_running ≡ r)
          × (connection_running os uuid conn.protocol w ≡ false)
          × ((stop_connection os uuid conn w).1 ≡ w))
        ⊎ (stopped ≡ r)
  unfolding stop_connection connection_running
  stop_connection-cases uuid conn w r h =
      elim (Bool-cases (is_running os (read_pid (pid_file uuid conn.protocol) w.files) w.sys)) [
        | inl e ↦ inr (
            stop_pid-stopped uuid _ (read_pid (pid_file uuid conn.protocol) w.files) w r e
              (rw e at h))
        | inr e ↦ inl (let k = rw e at h in cc, e, rw e refl)
      ]

  first_Sweep :
      (uuid : Text) (conn : Connection) (more : Dict Connection) (w end : World Sys) (r : StopReply)
      (rs : List Text)
      → (stop_connection os uuid conn w).0 ≡ ok r
      → Sweep more (stop_connection os uuid conn w).1 rs end
      → Sweep ((uuid, conn) ∷ more) w (line_of conn (stop_result r) ∷ rs) end
  unfolding line_of stop_result
  first_Sweep uuid conn more w end r rs h rest = elim (stop_connection-cases uuid conn w r h) [
    | inl (same, down, left) ↦ rw (← same) (idle down (rw left at rest))
    | inr same ↦
        let e : (stop_connection os uuid conn w).0 ≡ ok stopped = h ∙ ap ok (sym same) in
        rw (← same) (
          halted
            (stop_connection-IsStopped os run_files uuid conn w (stop_connection os uuid conn w).1
              (paired (stop_connection os uuid conn w) e))
            rest)
  ]
    where
      paired : (x : Result StopReply × World Sys) → x.0 ≡ ok stopped → x ≡ (ok stopped, x.1)
      paired (a, v) e = ap (λ b. (b, v)) e

  abbrev list_in : Result (List Text) → List Text
  list_in (ok l) = l
  list_in (raise e) = []

  stop_all-Sweep :
      (conns : Dict Connection) (w : World Sys) (rs : List Text)
      → (stop_all os conns w).0 ≡ ok rs
      → Sweep conns w rs (stop_all os conns w).1
  unfolding stop_all
  stop_all-Sweep [] w rs h = let e : [] ≡ rs = cc in rw (← e) done
  stop_all-Sweep ((uuid, conn) ∷ more) w rs h =
      let (r, p, e) = and_then-eq-ok (stop_connection os uuid conn w) _ h in
      let h1 = rw e at h in
      let v : World Sys = (stop_connection os uuid conn w).1 in
      let (ts, q, f) =
        and_then-eq-ok (stop_all os more v) (λ ts w2. (ok (line_of conn (stop_result r) ∷ ts), w2))
          h1 in
      let k = rw f at h1 in
      let same : line_of conn (stop_result r) ∷ ts ≡ rs = ap list_in k in
      rw (e, f, ← same) (first_Sweep uuid conn more w _ r ts p (stop_all-Sweep more v ts q))

  configured_Sweep :
      (w : World Sys) (result : Result Config) (answer : Text)
      → config_of w.files ≡ result
      → (on_config os result w λ cfg w1.
          and_then
            (stop_all os cfg.connections w1)
            λ rs w2. (ok (summary (codes "stopped: ") rs), w2)).0
        ≡ ok answer
      → Swept w
          (on_config os result w λ cfg w1.
            and_then
              (stop_all os cfg.connections w1)
              λ rs w2. (ok (summary (codes "stopped: ") rs), w2)).1
          answer
  configured_Sweep w (raise e) answer q h = cc
  configured_Sweep w (ok cfg) answer q h =
      let (rs, p, e) =
        and_then-eq-ok (stop_all os cfg.connections w)
          (λ rs w2. (ok (summary (codes "stopped: ") rs), w2)) h in
      let k : ok (summary (codes "stopped: ") rs) ≡ ok answer = rw e at h in
      rw e (record {
        cfg = cfg;
        configured = q;
        lines = rs;
        sweep = stop_all-Sweep cfg.connections w rs p;
        answered = cc;
      })

  -- When stop answers, where running a command leaves the scripts' files alone, it took every
  -- connection of the configuration in turn, disabled ones too, each in the world that the one
  -- before it left. A connection with no process under its pid file was left alone, and each other
  -- one was stopped: its process was ended by SIGTERM or SIGKILL or was gone before, and its pid
  -- file was removed. The answer has one line for each, with its name.
  pub cmd_stop-Swept :
      (w : World Sys) (answer : Text)
      → (cmd_stop os w).0 ≡ ok answer
      → Swept w (cmd_stop os w).1 answer
  unfolding cmd_stop
  cmd_stop-Swept w answer h = configured_Sweep w (config_of w.files) answer refl h
