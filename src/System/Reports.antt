-- ===== src/System/Reports.antt =====
-- `src/worker`, `src/ingest` and `src/api` together: what they keep of the events and the reports.
use mail_tester.Prelude.{ℕ, Text}
use mail_tester.Config.{Config}
use mail_tester.Db.Mongo.{Mongo, IsMongo}
use mail_tester.Db.Redis.{Redis}
use mail_tester.Exec.{World}
use mail_tester.Worker.Tasks.{Services}
use mail_tester.Worker.Tasks.Once.{IsSoundWorld, analyze_received_mail-IsSoundWorld}
use mail_tester.System.Accounts.{
  resolve_api_key-IsSoundWorld, create_key-IsSoundWorld, revoke_key-IsSoundWorld,
  list_history-IsSoundWorld, get_report-IsSoundWorld,
}
use mail_tester.System.Sessions.{register-IsSoundWorld, login-IsSoundWorld, logout-IsSoundWorld}
use mail_tester.System.{Step, Reach, here, next}
use mail_tester.System.Mails.{
  handle_data-IsSoundWorld, check_address-IsSoundWorld, get_result-IsSoundWorld,
  generate_random-IsSoundWorld,
}

module _ (M : Mongo) (L : IsMongo M) (R : Redis) (V : Services) (str_id : ℕ → Text)
    (hash_key : Text → Text) (c : Config) where
  Step-IsSoundWorld :
      {w v : World M R} → Step V str_id hash_key c w v → IsSoundWorld w → IsSoundWorld v
  Step-IsSoundWorld (Step.deliver faults now content mail_from rcpts w) S =
      handle_data-IsSoundWorld M L R V.parse c faults now content mail_from rcpts w S
  Step-IsSoundWorld (Step.analyze now n w) S =
      analyze_received_mail-IsSoundWorld M L R V c now n w S
  Step-IsSoundWorld (Step.generate now to_address ip u w) S =
      generate_random-IsSoundWorld M L R c str_id now to_address ip u w S
  Step-IsSoundWorld (Step.check now to_address after ip w) S =
      check_address-IsSoundWorld M L R c now to_address after ip w S
  Step-IsSoundWorld (Step.result now to_address ip w) S =
      get_result-IsSoundWorld M L R c now to_address ip w S
  Step-IsSoundWorld (Step.check_key now header w) S =
      resolve_api_key-IsSoundWorld M R hash_key str_id c now header w S
  Step-IsSoundWorld (Step.create_key now user_id name ip token w) S =
      create_key-IsSoundWorld M R hash_key c now user_id name ip token w S
  Step-IsSoundWorld (Step.revoke_key now user_id id ip w) S =
      revoke_key-IsSoundWorld M R now user_id id ip w S
  Step-IsSoundWorld (Step.history now limit before u w) S =
      list_history-IsSoundWorld M R str_id c now limit before u w S
  Step-IsSoundWorld (Step.report now id u w) S = get_report-IsSoundWorld M R str_id c now id u w S
  Step-IsSoundWorld (Step.register P now email password ip w) S =
      register-IsSoundWorld M R P c now email password ip w S
  Step-IsSoundWorld (Step.login P J now username password ip w) S =
      login-IsSoundWorld M R P J c now username password ip w S
  Step-IsSoundWorld (Step.logout now t ip w) S = logout-IsSoundWorld M R now t ip w S

  -- From a state with sound events and reports, such as an empty one, every state that is reached
  -- by deliveries, tasks, registrations, logins, logouts, and requests for addresses, results, API
  -- keys and the history, in any order, has them sound: no two events have one id, an event has a
  -- report only if a worker has claimed it, and then at most one.
  pub Reach-IsSoundWorld :
      {w v : World M R} → IsSoundWorld w → Reach V str_id hash_key c w v → IsSoundWorld v
  Reach-IsSoundWorld S here = S
  Reach-IsSoundWorld S (next r st) = Step-IsSoundWorld st (Reach-IsSoundWorld S r)
