-- ===== src/Tests/Client.antt =====
-- src/ipc/client.rs against the daemon of the daemon's tests.
use palingenesis.Prelude.{◌≡◌, refl, ok, err, []}
use palingenesis.Prelude.Int.{ℤ}
use palingenesis.Prelude.Text.{
  codes, text_eq, starts_with, trim, trim_end, trim_start_by, is_whitespace,
}
use palingenesis.Ipc.Protocol.{error}
use palingenesis.Ipc.Socket.{line}
use palingenesis.Ipc.Client.{parse_response, received, protocol}

refusal :
    received {F = ℤ} (λ text. err []) (line (codes "ERR: Daemon already paused\n"))
    ≡ ok (error (codes "Daemon already paused"))
unfolding received parse_response codes text_eq starts_with trim trim_end trim_start_by
    is_whitespace
refusal = refl

nonsense :
    received {F = ℤ} (λ text. err (codes "bad")) (line (codes "{\n"))
    ≡ err (protocol (codes "Invalid response: bad"))
unfolding received parse_response codes text_eq starts_with trim trim_end trim_start_by
    is_whitespace
nonsense = refl
