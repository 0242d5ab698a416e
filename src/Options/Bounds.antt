-- ===== src/Options/Bounds.antt =====
-- Which options make a configuration, and which values it then has.
use distributed_server_clien.Prelude.Bytes.{Bytes}
use distributed_server_clien.Prelude.Int.{pos, negsuc}
use distributed_server_clien.Prelude.{
  ℕ, ◌-◌, ◌≤◌, ◌<◌, ◌≡◌, ◌⊎◌, inl, inr, refl, false, Option, none, some, arith,
}
use distributed_server_clien.Options.{
  port_out_of_range, server_timeout_out_of_range, client_timeout_out_of_range, ServerOptions,
  ServerConfiguration, Parsed, exits, configured, notify_server, parse_server_arguments,
  ClientOptions, ClientConfiguration, notify_client, parse_client_arguments,
}

pub Parsed-cases :
    {C : Type 0} (p : Parsed C) → ((code : ℕ) × (p ≡ exits code)) ⊎ ((c : C) × (p ≡ configured c))
Parsed-cases (exits code) = inl (code, refl)
Parsed-cases (configured c) = inr (c, refl)

-- Every configuration that the options of the server make has a port from 1 to 65535 and a timeout
-- from 1 to 300 seconds.
pub parse_server_arguments_bounds :
    (given : Option ServerOptions) (c : ServerConfiguration)
    → parse_server_arguments given ≡ configured c
    → (1 ≤ c.cmd_port) × (c.cmd_port ≤ 65535) × (1 ≤ c.timeout) × (c.timeout ≤ 300)
unfolding parse_server_arguments notify_server port_out_of_range server_timeout_out_of_range
parse_server_arguments_bounds none c h = absurd (cc h)
parse_server_arguments_bounds (some o) c h = ground arith

-- Every port and timeout in these ranges makes a server.
pub parse_server_arguments_accepts :
    (mcast_addr shared_folder : Bytes) (port timeout space : ℕ)
    → 1 ≤ port
    → port ≤ 65535
    → 1 ≤ timeout
    → timeout ≤ 300
    → parse_server_arguments (
        some (record {
          help = false;
          mcast_addr = some mcast_addr;
          cmd_port = some (pos port);
          max_space = some space;
          shared_folder = some shared_folder;
          timeout = some (pos timeout);
        }))
      ≡ configured (record {
        mcast_addr = mcast_addr;
        cmd_port = port;
        max_space = space;
        shared_folder = shared_folder;
        timeout = timeout;
      })
unfolding parse_server_arguments notify_server port_out_of_range server_timeout_out_of_range
parse_server_arguments_accepts mcast_addr shared_folder port timeout space p q t u = ground arith

negative_configured :
    (o : ClientOptions) (mcast_addr out_folder : Bytes) (port n : ℕ)
    → o.help ≡ false
    → o.mcast_addr ≡ some mcast_addr
    → o.cmd_port ≡ some (pos port)
    → o.out_folder ≡ some out_folder
    → o.timeout ≡ some (negsuc n)
    → 1 ≤ port
    → port ≤ 65535
    → n < 65236
    → parse_client_arguments (some o)
      ≡ configured (record {
        mcast_addr = mcast_addr;
        cmd_port = port;
        out_folder = out_folder;
        timeout = 65535 - n;
      })
unfolding parse_client_arguments notify_client port_out_of_range client_timeout_out_of_range
negative_configured o mcast_addr out_folder port n no_help address command folder t low high small =
    rw (no_help, address, command, folder, t, notify_client) (ground arith)

-- Options of the client that are complete, have a port from 1 to 65535 and give a timeout of `-(n +
-- 1)` with `n` below 65236 are accepted: a configuration comes of them, and its timeout is `65535 -
-- n`, at least the maximum of 300 seconds.
pub parse_client_arguments_negative :
    (o : ClientOptions) (mcast_addr out_folder : Bytes) (port n : ℕ)
    → o.help ≡ false
    → o.mcast_addr ≡ some mcast_addr
    → o.cmd_port ≡ some (pos port)
    → o.out_folder ≡ some out_folder
    → o.timeout ≡ some (negsuc n)
    → 1 ≤ port
    → port ≤ 65535
    → n < 65236
    → (c : ClientConfiguration) × (parse_client_arguments (some o) ≡ configured c)
      × (c.timeout ≡ 65535 - n)
      × (300 ≤ c.timeout)
parse_client_arguments_negative o mcast_addr out_folder port n no_help address command folder t low
      high small =
    (
      record {
        mcast_addr = mcast_addr;
        cmd_port = port;
        out_folder = out_folder;
        timeout = 65535 - n;
      },
      negative_configured o mcast_addr out_folder port n no_help address command folder t low high
          small,
      refl,
      omega arith,
    )

-- The port of the client is in range.
pub parse_client_arguments_bounds :
    (given : Option ClientOptions) (c : ClientConfiguration)
    → parse_client_arguments given ≡ configured c
    → (1 ≤ c.cmd_port) × (c.cmd_port ≤ 65535)
unfolding parse_client_arguments notify_client port_out_of_range
parse_client_arguments_bounds none c h = absurd (cc h)
parse_client_arguments_bounds (some o) c h = ground arith
