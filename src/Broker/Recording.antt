-- ===== src/Broker/Recording.antt =====
-- gpibd.c: IOKit with a record of the calls that reach the driver.
use darwin_gpib.Prelude.{ℕ, List, [], ◌∷◌, ◌++◌, Option}
use darwin_gpib.Broker.{IoKit}

-- One `IOConnectCallStructMethod`.
pub record Sent : Type 0 where
  pub conn : ℕ
  pub selector : ℕ
  pub input : Option (List ℕ)
  pub cap : ℕ

pub record Recorded (W : Type 0) : Type 0 where
  pub log : List Sent
  pub inner : W

-- A call that the record leaves out.
abbrev pub silent : {W A : Type 0} → (W → A × W) → Recorded W → A × Recorded W
silent f w = let (a, v) = f w.inner in (a, record w { inner = v })

abbrev pub recording : {W : Type 0} → IoKit W → IoKit (Recorded W)
recording k = record {
  matching_services = silent k.matching_services;
  open_service = λ port. silent (k.open_service port);
  close_service = λ conn. silent (k.close_service conn);
  call_struct = λ conn selector input cap w.
      let (c, v) = k.call_struct conn selector input cap w.inner in
      (
        c,
        record {
          log = w.log ++ record { conn = conn; selector = selector; input = input; cap = cap } ∷ [];
          inner = v;
        },
      );
  allocate = λ n. silent (k.allocate n);
  no_device = k.no_device;
  not_attached = k.not_attached;
  invalid_dest = k.invalid_dest;
  invalid_reply = k.invalid_reply;
}
