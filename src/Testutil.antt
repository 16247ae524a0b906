-- ===== src/Testutil.antt =====
-- internal/testutil: the orders, the topics, the containers and the migrations of the repository's
-- tests. What containers, Kafka, Postgres and goose answer is an argument.
pub mod Orders
pub mod Containers
pub mod Topics
mod Tests
