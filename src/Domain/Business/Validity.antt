-- ===== src/Domain/Business/Validity.antt =====
-- The validation of a snapshot decides a declarative description of a well-formed one.
use webmcp_backend.Common.{◌<◌, ◌↔◌, arith, Passes, each-Passes, All}
use webmcp_backend.Common.Text.{NotBlank}
use webmcp_backend.Common.Int.{pos, ◌≤ℤ◌, ◌<ℤ◌}
use webmcp_backend.Domain.Core.{IsIdent, validate_id-Passes}
use webmcp_backend.Domain.Business.{
  Product, Customer, Order, Metric, Snapshot, validate_product, validate_customer, validate_order,
  validate_metric, validate_snapshot,
}

pub record IsProduct (p : Product) : Type 0 where
  pub ident : IsIdent p.id
  pub sku : NotBlank p.sku
  pub name : NotBlank p.name
  pub price_nonneg : pos 0 ≤ℤ p.price_cents
  pub cost_nonneg : pos 0 ≤ℤ p.cost_cents
  pub stock_nonneg : pos 0 ≤ℤ p.inventory_units
  pub cost_le_price : p.cost_cents ≤ℤ p.price_cents
  pub versioned : 0 < p.version

validate_product-Passes : (p : Product) → Passes (validate_product p) ↔ IsProduct p
unfolding validate_product
validate_product-Passes p = (
  λ h. ground (arith, validate_id-Passes p.id "product_id"),
  λ v. ground (arith, (validate_id-Passes p.id "product_id").1 v.ident),
)

pub record IsCustomer (c : Customer) : Type 0 where
  pub ident : IsIdent c.id
  pub name : NotBlank c.name
  pub versioned : 0 < c.version

validate_customer-Passes : (c : Customer) → Passes (validate_customer c) ↔ IsCustomer c
unfolding validate_customer
validate_customer-Passes c = (
  λ h. ground (arith, validate_id-Passes c.id "customer_id"),
  λ v. ground (arith, (validate_id-Passes c.id "customer_id").1 v.ident),
)

pub record IsOrder (o : Order) : Type 0 where
  pub ident : IsIdent o.id
  pub customer : IsIdent o.customer_id
  pub product : IsIdent o.product_id
  pub quantity_pos : pos 0 <ℤ o.quantity
  pub revenue_nonneg : pos 0 ≤ℤ o.revenue_cents
  pub cost_nonneg : pos 0 ≤ℤ o.cost_cents
  pub cost_le_revenue : o.cost_cents ≤ℤ o.revenue_cents
  pub versioned : 0 < o.version

validate_order-Passes : (o : Order) → Passes (validate_order o) ↔ IsOrder o
unfolding validate_order
validate_order-Passes o = (
  λ h. ground (
    arith,
    validate_id-Passes o.id "order_id",
    validate_id-Passes o.customer_id "customer_id",
    validate_id-Passes o.product_id "product_id",
  ),
  λ v. ground (
    arith,
    (validate_id-Passes o.id "order_id").1 v.ident,
    (validate_id-Passes o.customer_id "customer_id").1 v.customer,
    (validate_id-Passes o.product_id "product_id").1 v.product,
  ),
)

pub record IsMetric {F : Type 0} (m : Metric F) : Type 0 where
  pub key : NotBlank m.key
  pub period : NotBlank m.period
  pub source : NotBlank m.source
  pub versioned : 0 < m.version

validate_metric-Passes : {F : Type 0} (m : Metric F) → Passes (validate_metric m) ↔ IsMetric m
unfolding validate_metric
validate_metric-Passes m = (λ h. ground arith, λ v. ground arith)

pub record IsSnapshot {F : Type 0} (s : Snapshot F) : Type 0 where
  pub ident : IsIdent s.business_id
  pub versioned : 0 < s.version
  pub products : All IsProduct s.products
  pub customers : All IsCustomer s.customers
  pub orders : All IsOrder s.orders
  pub metrics : All IsMetric s.metrics

-- A snapshot passes validation exactly if it is well formed: its identifier and version, and
-- every product, customer, order and metric in it.
pub validate_snapshot-Passes :
    {F : Type 0} (s : Snapshot F) → Passes (validate_snapshot s) ↔ IsSnapshot s
unfolding validate_snapshot
validate_snapshot-Passes s = (
  λ h. ground (
    arith,
    validate_id-Passes s.business_id "business_id",
    each-Passes IsProduct validate_product validate_product-Passes s.products,
    each-Passes IsCustomer validate_customer validate_customer-Passes s.customers,
    each-Passes IsOrder validate_order validate_order-Passes s.orders,
    each-Passes IsMetric validate_metric validate_metric-Passes s.metrics,
  ),
  λ v. ground (
    arith,
    (validate_id-Passes s.business_id "business_id").1 v.ident,
    (each-Passes IsProduct validate_product validate_product-Passes s.products).1 v.products,
    (each-Passes IsCustomer validate_customer validate_customer-Passes s.customers).1 v.customers,
    (each-Passes IsOrder validate_order validate_order-Passes s.orders).1 v.orders,
    (each-Passes IsMetric validate_metric validate_metric-Passes s.metrics).1 v.metrics,
  ),
)
