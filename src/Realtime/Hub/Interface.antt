-- ===== src/Realtime/Hub/Interface.antt =====
-- What the hub relies on of a subscription manager (`SubscriptionManager` of
-- backend/app/services/realtime_hub.py).
use tw_stock_android_spec.Base.{◌≡◌, String, Bool, true, false, ◌&&◌, str_eq, if◌then◌else◌}
use tw_stock_android_spec.Outcome.{Result, ok, err, Error}
use tw_stock_android_spec.Realtime.Quote.{Identity, same_identity}

abbrev pub is_call : String → Identity → String → Identity → Bool
is_call owner i other j = str_eq owner other && same_identity i j

-- The calls, who owns what, and what the calls do to it; one that raises leaves it as it is.
pub record SubscriptionManager (M : Type 0) : Type 1 where
  pub acquire : String → Identity → M → Result (Unit {0}) × M
  pub release : String → Identity → M → Result (Unit {0}) × M
  pub owns : M → String → Identity → Bool
  pub IsSound : M → Type 0
  pub acquire-IsSound : (o : String) (i : Identity) (m : M) → IsSound m → IsSound (acquire o i m).1
  pub release-IsSound : (o : String) (i : Identity) (m : M) → IsSound m → IsSound (release o i m).1
  pub acquire_ok :
      (o : String) (i : Identity) (m : M)
      → IsSound m
      → (acquire o i m).0 ≡ ok tt
      → (p : String) (j : Identity)
      → owns (acquire o i m).1 p j ≡ (if is_call o i p j then true else owns m p j)
  pub acquire_err :
      (o : String) (i : Identity) (m : M) (e : Error)
      → IsSound m
      → (acquire o i m).0 ≡ err e
      → (p : String) (j : Identity) → owns (acquire o i m).1 p j ≡ owns m p j
  pub release_ok :
      (o : String) (i : Identity) (m : M)
      → IsSound m
      → (release o i m).0 ≡ ok tt
      → (p : String) (j : Identity)
      → owns (release o i m).1 p j ≡ (if is_call o i p j then false else owns m p j)
  pub release_err :
      (o : String) (i : Identity) (m : M) (e : Error)
      → IsSound m
      → (release o i m).0 ≡ err e
      → (p : String) (j : Identity) → owns (release o i m).1 p j ≡ owns m p j
