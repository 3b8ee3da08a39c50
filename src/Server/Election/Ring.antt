-- ===== src/Server/Election/Ring.antt =====
-- An election on a ring of servers: Steps is about one server, Finding about the servers that are
-- down between it and the next one, Round about a message on its way, Led and Times about the two
-- times that the message goes round, Agreement about the whole.
pub mod Steps
pub mod Finding
pub mod Round
pub mod Led
pub mod Times
pub mod Agreement
