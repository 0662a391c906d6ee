-- ===== src/Kafka.antt =====
-- internal/infrastructure/kafka: the consumer of the messages and the broker that publishes events.
pub mod Consumer
pub mod Producer
pub mod Broker
