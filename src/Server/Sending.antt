-- ===== src/Server/Sending.antt =====
-- What the server's connections send: `TcpSender` of server/src/sender.rs, server/src/udp_sender.rs
-- and the messages `SetServer` and `SendMessage` of server/src/udp_receiver.rs.
use concu_ride.Prelude.{String, Bool, true, false, Option, none, some, List}
use concu_ride.Common.Tcp.{WriteHalf, Written, Handled, write_or_panic}
use concu_ride.Server.{Addr}

-- `addr` is the address of the socket.
pub record TcpSender : Type 0 where
  pub write : Option WriteHalf
  pub addr : String
  pub server_addr : Addr

-- `TcpMessage`
unfoldable pub handle_tcp_message :
    {A : Type 0} → TcpSender → List A → Written → List A × Handled TcpSender
unfolding write_or_panic
handle_tcp_message c = write_or_panic (λ write. record c { write = write }) c.write

-- A datagram: its text and the address it is sent to.
pub record UdpMessage (A : Type 0) : Type 0 where
  pub message : A
  pub dst : String

-- `UdpSender`: the datagram goes out, and a failure is only logged.
unfoldable pub handle_udp_message : {A : Type 0} → UdpMessage A → Bool → Option (UdpMessage A)
handle_udp_message msg true = some msg
handle_udp_message msg false = none

pub record UdpReceiver : Type 0 where
  pub server : Option Addr

unfoldable pub set_server : UdpReceiver → Addr → UdpReceiver
set_server r server_addr = record r { server = some server_addr }

-- `SendMessage`: a failure is a panic.
unfoldable pub handle_send_message :
    {A : Type 0} → UdpReceiver → UdpMessage A → Bool → Option (UdpReceiver × UdpMessage A)
handle_send_message r msg true = some (r, msg)
handle_send_message r msg false = none
