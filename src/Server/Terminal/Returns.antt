-- ===== src/Server/Terminal/Returns.antt =====
-- The requests of `on_ttype` return.
use telnetlib.Prelude.{bytes_eq, ◌≡◌, arith}
use telnetlib.Telopt.{cmd_do, cmd_will, opt_echo, opt_new_environ}
use telnetlib.Exec.{ok, ◌>>=◌}
use telnetlib.Session.Iac.{iac_result, IsNegotiation-do, IsNegotiation-will}
use telnetlib.Server.{Library, Protocol, on_session}
use telnetlib.Server.Terminal.{negotiate_environ, negotiate_echo}

pub negotiate_echo_ok : (lib : Library) (p : Protocol) → (negotiate_echo lib p).0 ≡ ok tt
unfolding negotiate_echo on_session ◌>>=◌
negotiate_echo_ok lib p = ground (arith, iac_result cmd_will opt_echo p.session IsNegotiation-will)

pub negotiate_environ_ok : (p : Protocol) → (negotiate_environ p).0 ≡ ok tt
unfolding negotiate_environ on_session ◌>>=◌
negotiate_environ_ok p =
    ground (arith, iac_result cmd_do opt_new_environ p.session IsNegotiation-do)
